-- ===== src/Verifier/Recovery/Unstarted.antt =====
-- engine/src/api/services/mutation_journal.py: calls of the journal that start no execution.
use cloudops_agent.Prelude.{
  ℕ, String, Bool, true, false, not, ◌&&◌, ◌||◌, Option, some, ◌≡◌, refl, arith, ap, ◌∙◌, List, [],
  ◌∷◌, ◌⊎◌, inl, inr, Bool-cases, All,
}
use cloudops_agent.Json.{Value}
use cloudops_agent.Settings.{Settings}
use cloudops_agent.Mutation.Manifest.{Yaml}
use cloudops_agent.Mutation.Operation.{
  MutationOperation, ExecutionStatus, VerificationStatus, is_executing,
}
use cloudops_agent.Journal.Rows.{
  Action, Clock, save, record_execution, claim_verification, record_verification,
  abandon_verification, recover_execution, recover_verification, cancel_prepared,
  interrupt_executing, is_outcome, is_verification_outcome,
}
use cloudops_agent.Journal.Table.{
  Table, Result, find_row, locked, update_where, recover_stale_executions,
  recover_stale_verifications, cancel_run_prepared, interrupt_run_executing,
}
use cloudops_agent.Journal.Lookup.{find_row-update_where, find_row-append}
use cloudops_agent.Journal.Prepare.{prepare-Written, kept, kept_meanwhile, appended}
use cloudops_agent.Journal.Steps.{
  Event, preparing, starting, finishing, claiming, concluding, abandoning, recovering_executions,
  recovering_verifications, stopping_prepared, stopping_executing, apply, run,
}
use cloudops_agent.Journal.Steps.Apply.{of_if}
use cloudops_agent.Journal.Steps.Locked.{
  KeepsId, locked-row, record_execution-keeps, claim_verification-keeps, record_verification-keeps,
  abandon_verification-keeps,
}
use cloudops_agent.Journal.Steps.Bulk.{
  recover_execution-id, recover_verification-id, cancel_prepared-id, interrupt_executing-id,
}
use cloudops_agent.Verifier.Recovery.Calls.{is_start}

-- A row that counts the same execution attempts, and is executing only where it was.
abbrev pub Unstarted : MutationOperation → MutationOperation → Type 0
Unstarted op op' =
    (op'.attempt_count ≡ op.attempt_count)
    × ((is_executing op'.execution_status && not (is_executing op.execution_status)) ≡ false)

Unstarted-refl : (op : MutationOperation) → Unstarted op op
Unstarted-refl op = (refl, ground arith)

Unstarted-trans : (a b c : MutationOperation) → Unstarted a b → Unstarted b c → Unstarted a c
Unstarted-trans a b c (n, e) (m, f) = (m ∙ n, ground arith)

-- What became of one row in a journal.
abbrev pub Kept : String → MutationOperation → Table → Type 0
Kept j op t = (op' : MutationOperation) × (find_row j t ≡ some op') × Unstarted op op'

abbrev KeptBy : String → MutationOperation → Result MutationOperation × Table → Type 0
KeptBy j op r = Kept j op r.1

locked-Kept :
    {A : Type 0} (f : MutationOperation → Action A)
    → KeepsId f
    → ((op op' : MutationOperation) (r : A) → f op ≡ save op' r → Unstarted op op')
    → (id : String) (t : Table) (j : String) (op : MutationOperation) → find_row j t ≡ some op
    → Kept j op (locked id f t).1
locked-Kept f keeps same id t j op h =
    let (op', there, how) = locked-row f keeps id t j op h in (op', there, unstarted op' how)
  where
    unstarted :
        (op' : MutationOperation)
        → ((op' ≡ op) ⊎ ((r : _) × (f op ≡ save op' r)))
        → Unstarted op op'
    unstarted op' (inl e) = (ap (λ (o : MutationOperation). o.attempt_count) e, ground (arith, e))
    unstarted op' (inr (r, e)) = same op op' r e

update_where-Kept :
    (p : MutationOperation → Bool) (f : MutationOperation → MutationOperation)
    → ((op : MutationOperation) → (f op).id ≡ op.id)
    → ((op : MutationOperation) → Unstarted op (f op))
    → (t : Table) (j : String) (op : MutationOperation) → find_row j t ≡ some op
    → Kept j op (update_where p f t).1
update_where-Kept p f same_id same t j op h =
    let there = find_row-update_where p f same_id j t in
    elim (Bool-cases (p op)) [
      | inl e ↦ (f op, there ∙ rw (h, e) refl, same op)
      | inr e ↦ (op, there ∙ rw (h, e) refl, Unstarted-refl op)
    ]

module _ (settings : Settings) (clock : Clock) (op op' : MutationOperation) where
  record_execution-Unstarted :
      (status : ExecutionStatus) (result error : Option Value) (r : MutationOperation)
      → is_outcome status ≡ true
      → record_execution clock status result error op ≡ save op' r
      → Unstarted op op'
  unfolding record_execution
  record_execution-Unstarted status result error r o e = (ground arith, ground arith)

  claim-Unstarted :
      (owner : String) (r : MutationOperation × Bool)
      → claim_verification settings clock owner op ≡ save op' r
      → Unstarted op op'
  unfolding claim_verification
  claim-Unstarted owner r e = (ground arith, ground arith)

  record_verification-Unstarted :
      (owner : String) (status : VerificationStatus) (result : Value) (reference : Option Value)
      (r : MutationOperation)
      → record_verification clock owner status result reference op ≡ save op' r
      → Unstarted op op'
  unfolding record_verification
  record_verification-Unstarted owner status result reference r e = (ground arith, ground arith)

  abandon-Unstarted :
      (owner reason : String) (r : Bool)
      → abandon_verification clock owner reason op ≡ save op' r
      → Unstarted op op'
  unfolding abandon_verification
  abandon-Unstarted owner reason r e = (ground arith, ground arith)

bulk-Unstarted :
    (now : ℕ) (op : MutationOperation)
    → Unstarted op (recover_execution now op)
      × Unstarted op (recover_verification now op)
      × Unstarted op (cancel_prepared now op)
      × Unstarted op (interrupt_executing now op)
unfolding recover_execution recover_verification cancel_prepared interrupt_executing
bulk-Unstarted now op = ((refl, refl), (refl, ground arith), (refl, refl), (refl, refl))

module _ (settings : Settings) (yaml : Yaml) (digest : String → String → String) where
  apply-Kept :
      (e : Event) (t : Table) (j : String) (op : MutationOperation)
      → is_start e ≡ false
      → find_row j t ≡ some op
      → Kept j op (apply settings yaml digest e t)
  unfolding apply recover_stale_executions recover_stale_verifications cancel_run_prepared
      interrupt_run_executing
  apply-Kept (preparing clock id run_id call_id tool args context policy plan) t j op n h =
      elim (prepare-Written settings yaml digest clock (λ u. u) id run_id call_id tool args context
        policy plan t) [
          | kept e ↦ (op, ap (find_row j) e ∙ h, Unstarted-refl op)
          | kept_meanwhile e ↦ (op, ap (find_row j) e ∙ h, Unstarted-refl op)
          | appended a e ↦
              (op, ap (find_row j) e ∙ find_row-append j t _ ∙ rw h refl, Unstarted-refl op)
        ]
  apply-Kept (starting clock id owner) t j op n h = cc
  apply-Kept (finishing clock id status result error) t j op n h =
      of_if (KeptBy j op) (is_outcome status) _ _
        (λ e.
          locked-Kept _ (record_execution-keeps settings clock status result error)
            (λ o o' r k. record_execution-Unstarted settings clock o o' status result error r e k)
            id t j op h)
        (op, h, Unstarted-refl op)
  apply-Kept (claiming clock id owner) t j op n h =
      locked-Kept _ (claim_verification-keeps settings clock owner)
        (λ o o' r k. claim-Unstarted settings clock o o' owner r k) id t j op h
  apply-Kept (concluding clock id owner status result reference) t j op n h =
      of_if (KeptBy j op) (is_verification_outcome status) _ _
        (λ e.
          locked-Kept _ (record_verification-keeps settings clock owner status result reference)
            (λ o o' r k.
              record_verification-Unstarted settings clock o o' owner status result reference r k)
            id t j op h)
        (op, h, Unstarted-refl op)
  apply-Kept (abandoning clock id owner reason) t j op n h =
      locked-Kept _ (abandon_verification-keeps settings clock owner reason)
        (λ o o' r k. abandon-Unstarted settings clock o o' owner reason r k) id t j op h
  apply-Kept (recovering_executions now) t j op n h =
      update_where-Kept _ _ (recover_execution-id now) (λ o. (bulk-Unstarted now o).0) t j op h
  apply-Kept (recovering_verifications now) t j op n h =
      update_where-Kept _ _ (recover_verification-id now) (λ o. (bulk-Unstarted now o).1) t j op h
  apply-Kept (stopping_prepared run_id now) t j op n h =
      update_where-Kept _ _ (cancel_prepared-id now) (λ o. (bulk-Unstarted now o).2) t j op h
  apply-Kept (stopping_executing run_id now) t j op n h =
      update_where-Kept _ _ (interrupt_executing-id now) (λ o. (bulk-Unstarted now o).3) t j op h

  pub run-Kept :
      (es : List Event) (t : Table) (j : String) (op : MutationOperation)
      → All (λ (e : Event). (not (is_start e) || false) ≡ true) es
      → find_row j t ≡ some op
      → Kept j op (run settings yaml digest es t)
  unfolding run
  run-Kept [] t j op none_starts h = (op, h, Unstarted-refl op)
  run-Kept (e ∷ es) t j op (no_start, none_starts) h =
      let (o, there, x) = apply-Kept e t j op (ground arith) h in
      let (o', last, y) = run-Kept es (apply settings yaml digest e t) j o none_starts there in
      (o', last, Unstarted-trans op o o' x y)
