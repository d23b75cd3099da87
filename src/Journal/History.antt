-- ===== src/Journal/History.antt =====
-- engine/src/api/services/mutation_journal.py: what holds after every sequence of calls, by any number
-- of workers in any order, from the empty journal.
pub mod Once
pub mod Redacted
pub mod Final
use cloudops_agent.Prelude.{
  ℕ, String, Bool, true, false, Option, none, some, ◌≡◌, refl, arith, List, [], ◌∷◌, Option-cases,
  inl, inr, subst, sym, subst, some_inj, ◌∙◌,
}
use cloudops_agent.Json.{Fields}
use cloudops_agent.Settings.{Settings, IsValidSettings}
use cloudops_agent.Mutation.Manifest.{Yaml}
use cloudops_agent.Mutation.Redact.Laws.{IsClean, redact_sensitive-IsClean}
use cloudops_agent.Mutation.Operation.{MutationOperation, is_executing, is_prepared, is_verifying}
use cloudops_agent.Policy.{MutationPolicyDecision}
use cloudops_agent.Journal.Rows.{
  Clock, is_stale_execution, is_stale_verification, is_settled, is_verifiable, is_unsuccessful,
  mark_executing, record_execution, claim_verification, record_verification, abandon_verification,
  recover_execution, recover_verification, cancel_prepared, interrupt_executing,
}
use cloudops_agent.Journal.Table.{Table, Context, find_row, new_operation}
use cloudops_agent.Journal.Steps.{
  Event, apply, run, RowStep, idle, started, finished, claimed, concluded, abandoned, recovered,
  released, cancelled, interrupted,
}
use cloudops_agent.Journal.Steps.Apply.{apply-RowStep, apply-Inserts, absent, inserted}
use cloudops_agent.Journal.Invariant.{
  IsConsistent, mark_executing-IsConsistent, record_execution-IsConsistent,
  claim_verification-IsConsistent, record_verification-IsConsistent,
  abandon_verification-IsConsistent, recover_execution-IsConsistent,
  recover_verification-IsConsistent, cancel_prepared-IsConsistent, interrupt_executing-IsConsistent,
}

stale_executing :
    (now : ℕ) (op : MutationOperation)
    → is_stale_execution now op ≡ true
    → is_executing op.execution_status ≡ true
unfolding is_stale_execution
stale_executing now op h = ground arith

stale_verifying :
    (now : ℕ) (op : MutationOperation)
    → is_stale_verification now op ≡ true
    → is_verifying op.verification_status ≡ true
unfolding is_stale_verification
stale_verifying now op h = ground arith

module _ (settings : Settings) where
  pub RowStep-IsConsistent :
      {op op' : MutationOperation}
      → RowStep settings op op'
      → IsConsistent settings op
      → IsConsistent settings op'
  RowStep-IsConsistent (idle e) h = subst (IsConsistent settings) (sym e) h
  RowStep-IsConsistent {op} {op'} (started clock owner r e) h =
      mark_executing-IsConsistent settings clock op op' h owner e
  RowStep-IsConsistent {op} {op'} (finished clock status result error r o e) h =
      record_execution-IsConsistent settings clock op op' h status result error o e
  RowStep-IsConsistent {op} {op'} (claimed clock owner r e) h =
      claim_verification-IsConsistent settings clock op op' h owner e
  RowStep-IsConsistent {op} {op'} (concluded clock owner status result reference r o e) h =
      record_verification-IsConsistent settings clock op op' h owner status result reference o e
  RowStep-IsConsistent {op} {op'} (abandoned clock owner reason r e) h =
      abandon_verification-IsConsistent settings clock op op' h owner reason e
  RowStep-IsConsistent {op} (recovered now s e) h =
      subst (IsConsistent settings) (sym e)
        (recover_execution-IsConsistent settings now op h (stale_executing now op s))
  RowStep-IsConsistent {op} (released now s e) h =
      subst (IsConsistent settings) (sym e)
        (recover_verification-IsConsistent settings now op h (stale_verifying now op s))
  RowStep-IsConsistent {op} (cancelled now s e) h =
      subst (IsConsistent settings) (sym e) (cancel_prepared-IsConsistent settings now op h s)
  RowStep-IsConsistent {op} (interrupted now s e) h =
      subst (IsConsistent settings) (sym e) (interrupt_executing-IsConsistent settings now op h s)

-- A property of rows that fresh rows have and that steps keep is one of every row of every history.
module _ {ℓ} (settings : Settings) (yaml : Yaml) (digest : String → String → String)
    (P : MutationOperation → Type ℓ)
    (fresh : (clock : Clock) (id key run_id call_id tool : String) (args : Fields)
        (context : Context) (policy : MutationPolicyDecision) (plan : Fields) (hmac : String)
      → P (
          new_operation settings yaml digest clock id key run_id call_id tool args context policy
            plan hmac))
    (kept : (op op' : MutationOperation) → RowStep settings op op' → P op → P op') where
  abbrev pub Everywhere : Table → Type ℓ
  Everywhere t = (id : String) (op : MutationOperation) → find_row id t ≡ some op → P op

  apply-Everywhere :
      (e : Event) (t : Table) → Everywhere t → Everywhere (apply settings yaml digest e t)
  apply-Everywhere e t h id op there = elim (Option-cases (find_row id t)) [
    | inl nothing ↦ elim (apply-Inserts settings yaml digest e t id nothing) [
      | absent none_yet ↦ absurd_row (sym there ∙ none_yet)
      | inserted clock i key run_id call_id tool args context policy plan hmac new ↦
          subst P (some_inj (sym new ∙ there))
            (fresh clock i key run_id call_id tool args context policy plan hmac)
    ]
    | inr (before, old) ↦
        let (after, new, step) = apply-RowStep settings yaml digest e t id before old in
        subst P (some_inj (sym new ∙ there)) (kept before after step (h id before old))
  ]
    where
      absurd_row : some op ≡ none → P op
      absurd_row clash = cc

  pub run-Everywhere :
      (es : List Event) (t : Table) → Everywhere t → Everywhere (run settings yaml digest es t)
  unfolding run
  run-Everywhere [] t h = h
  run-Everywhere (e ∷ es) t h =
      run-Everywhere es (apply settings yaml digest e t) (apply-Everywhere e t h)

module _ (settings : Settings) (yaml : Yaml) (digest : String → String → String) where
  fresh-IsConsistent :
      (clock : Clock) (id key run_id call_id tool : String) (args : Fields) (context : Context)
      (policy : MutationPolicyDecision) (plan : Fields) (hmac : String)
      → IsConsistent settings (
          new_operation settings yaml digest clock id key run_id call_id tool args context policy
            plan hmac)
  unfolding new_operation
  fresh-IsConsistent clock id key run_id call_id tool args context policy plan hmac = ground arith

  -- After any calls of the journal, in any order and at any times, from a journal whose rows are
  -- consistent, every row is consistent: at most one execution attempt is counted, and none while the
  -- row is prepared; an execution lease is held exactly while the row is executing, and a
  -- verification lease exactly while it is verifying; a row whose execution has reported neither
  -- success nor an unknown outcome is not verified; a failed or cancelled row needs no verification;
  -- and the verification attempts stay within the budget.
  pub run-IsConsistent :
      (es : List Event) (t : Table)
      → ((id : String) (op : MutationOperation)
          → find_row id t ≡ some op
          → IsConsistent settings op)
      → (id : String) (op : MutationOperation)
      → find_row id (run settings yaml digest es t) ≡ some op
      → IsConsistent settings op
  run-IsConsistent =
      run-Everywhere settings yaml digest (IsConsistent settings) fresh-IsConsistent
        (λ op op' step. RowStep-IsConsistent settings step)
