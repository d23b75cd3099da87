-- ===== src/Journal/Steps/Apply.antt =====
-- engine/src/api/services/mutation_journal.py: one event, seen from one row.
use cloudops_agent.Prelude.{
  ◌&&◌, arith, String, Bool, true, false, none, some, ◌≡◌, refl, ap, ◌∙◌, inl, inr, Bool-cases,
  ◌==◌, if◌then◌else◌,
}
use cloudops_agent.Json.{Fields}
use cloudops_agent.Settings.{Settings}
use cloudops_agent.Mutation.Manifest.{Yaml}
use cloudops_agent.Mutation.Operation.{MutationOperation}
use cloudops_agent.Policy.{MutationPolicyDecision}
use cloudops_agent.Journal.Rows.{Clock, is_outcome, is_verification_outcome}
use cloudops_agent.Journal.Table.{
  cancel_run_prepared, interrupt_run_executing, of_run, Table, Result, Context, find_row,
  recover_stale_executions, recover_stale_verifications, new_operation,
}
use cloudops_agent.Journal.Steps.{
  Event, preparing, starting, finishing, claiming, concluding, abandoning, recovering_executions,
  recovering_verifications, stopping_prepared, stopping_executing, cancelled, interrupted, apply,
  RowStep, idle, started, finished, claimed, concluded, abandoned, recovered, released,
}
use cloudops_agent.Journal.Lookup.{find_row-append, find_row-append_absent}
use cloudops_agent.Journal.Prepare.{kept, kept_meanwhile, appended, prepare-Written}
use cloudops_agent.Journal.Steps.Locked.{
  locked-RowStep, locked-none, mark_executing-keeps, record_execution-keeps,
  claim_verification-keeps, record_verification-keeps, abandon_verification-keeps,
}
use cloudops_agent.Journal.Steps.Bulk.{
  update_where-RowStep, update_where-none, cancel_prepared-id, interrupt_executing-id,
  recover_execution-id, recover_verification-id,
}

and_right : (a b : Bool) → (a && b) ≡ true → b ≡ true
and_right a b h = ground arith

-- A property of both branches of a test.
pub of_if {ℓ κ} :
    {A : Type ℓ} (P : A → Type κ) (b : Bool) (x y : A)
    → (b ≡ true → P x)
    → P y
    → P (if b then x else y)
of_if P true x y h k = h refl
of_if P false x y h k = k

test {ℓ} : {A : Type ℓ} {b c : Bool} (x y : A) → b ≡ c → (if b then x else y) ≡ (if c then x else y)
test x y e = ap (λ b. if b then x else y) e

abbrev Leads : Settings → String → MutationOperation → Result MutationOperation × Table → Type 0
Leads settings j op r =
    (op' : MutationOperation) × (find_row j r.1 ≡ some op') × RowStep settings op op'

abbrev Lacks : String → Result MutationOperation × Table → Type 0
Lacks j r = find_row j r.1 ≡ none

module _ (settings : Settings) (yaml : Yaml) (digest : String → String → String) where
  -- An event turns a row that is there into one row, by one step of the relation.
  pub apply-RowStep :
      (e : Event) (t : Table) (j : String) (op : MutationOperation)
      → find_row j t ≡ some op
      → (op' : MutationOperation) × (find_row j (apply settings yaml digest e t) ≡ some op')
        × RowStep settings op op'
  unfolding apply recover_stale_executions recover_stale_verifications cancel_run_prepared
      interrupt_run_executing
  apply-RowStep (preparing clock id run_id call_id tool args context policy plan) t j op h =
      elim (prepare-Written settings yaml digest clock (λ u. u) id run_id call_id tool args context
        policy plan t) [
          | kept e ↦ (op, ap (find_row j) e ∙ h, idle refl)
          | kept_meanwhile e ↦ (op, ap (find_row j) e ∙ h, idle refl)
          | appended a e ↦ (op, ap (find_row j) e ∙ find_row-append j t _ ∙ rw h refl, idle refl)
        ]
  apply-RowStep (starting clock id owner) t j op h =
      locked-RowStep settings _ (mark_executing-keeps settings clock owner)
        (λ o o' r e. started clock owner r e) id t j op h
  apply-RowStep (finishing clock id status result error) t j op h =
      of_if (Leads settings j op) (is_outcome status) _ _
        (λ e.
          locked-RowStep settings _ (record_execution-keeps settings clock status result error)
            (λ o o' r k. finished clock status result error r e k) id t j op h)
        (op, h, idle refl)
  apply-RowStep (claiming clock id owner) t j op h =
      locked-RowStep settings _ (claim_verification-keeps settings clock owner)
        (λ o o' r e. claimed clock owner r e) id t j op h
  apply-RowStep (concluding clock id owner status result reference) t j op h =
      of_if (Leads settings j op) (is_verification_outcome status) _ _
        (λ e.
          locked-RowStep settings _
            (record_verification-keeps settings clock owner status result reference)
            (λ o o' r k. concluded clock owner status result reference r e k) id t j op h)
        (op, h, idle refl)
  apply-RowStep (abandoning clock id owner reason) t j op h =
      locked-RowStep settings _ (abandon_verification-keeps settings clock owner reason)
        (λ o o' r e. abandoned clock owner reason r e) id t j op h
  apply-RowStep (recovering_executions now) t j op h =
      update_where-RowStep settings _ _ (recover_execution-id now) (λ o e. recovered now e refl) t j
        op h
  apply-RowStep (recovering_verifications now) t j op h =
      update_where-RowStep settings _ _ (recover_verification-id now) (λ o e. released now e refl) t
        j op h
  apply-RowStep (stopping_prepared run_id now) t j op h =
      update_where-RowStep settings _ _ (cancel_prepared-id now)
        (λ o e. cancelled now (and_right (of_run run_id o) _ e) refl) t j op h
  apply-RowStep (stopping_executing run_id now) t j op h =
      update_where-RowStep settings _ _ (interrupt_executing-id now)
        (λ o e. interrupted now (and_right (of_run run_id o) _ e) refl) t j op h

  -- An event leaves an identifier without a row, or it is the preparation that inserts a fresh row.
  pub data Inserts (e : Event) (t : Table) (j : String) : Type 0 where
    absent : find_row j (apply settings yaml digest e t) ≡ none → Inserts e t j
    inserted :
        (clock : Clock) (id key run_id call_id tool : String) (args : Fields) (context : Context)
        (policy : MutationPolicyDecision) (plan : Fields) (hmac : String)
        → find_row j (apply settings yaml digest e t)
          ≡ some (
              new_operation settings yaml digest clock id key run_id call_id tool args context
                policy plan hmac)
        → Inserts e t j

  pub apply-Inserts : (e : Event) (t : Table) (j : String) → find_row j t ≡ none → Inserts e t j
  unfolding apply recover_stale_executions recover_stale_verifications cancel_run_prepared
      interrupt_run_executing new_operation
  apply-Inserts (preparing clock id run_id call_id tool args context policy plan) t j h =
      elim (prepare-Written settings yaml digest clock (λ u. u) id run_id call_id tool args context
        policy plan t) [
          | kept e ↦ absent (ap (find_row j) e ∙ h)
          | kept_meanwhile e ↦ absent (ap (find_row j) e ∙ h)
          | appended a e ↦ elim (Bool-cases (id == j)) [
            | inl same ↦
                inserted clock id _ run_id call_id tool args context policy plan _
                  (ap (find_row j) e ∙ find_row-append_absent j t _ h ∙ test _ _ same)
            | inr other ↦
                absent (ap (find_row j) e ∙ find_row-append_absent j t _ h ∙ test _ _ other)
          ]
        ]
  apply-Inserts (starting clock id owner) t j h =
      absent (locked-none _ (mark_executing-keeps settings clock owner) id t j h)
  apply-Inserts (finishing clock id status result error) t j h = absent (
      of_if (Lacks j) (is_outcome status) _ _
        (λ e. locked-none _ (record_execution-keeps settings clock status result error) id t j h) h)
  apply-Inserts (claiming clock id owner) t j h =
      absent (locked-none _ (claim_verification-keeps settings clock owner) id t j h)
  apply-Inserts (concluding clock id owner status result reference) t j h = absent (
      of_if (Lacks j) (is_verification_outcome status) _ _
        (λ e.
          locked-none _ (record_verification-keeps settings clock owner status result reference) id
            t j h)
        h)
  apply-Inserts (abandoning clock id owner reason) t j h =
      absent (locked-none _ (abandon_verification-keeps settings clock owner reason) id t j h)
  apply-Inserts (recovering_executions now) t j h = absent (
      update_where-none settings _ _ (recover_execution-id now) (λ o e. recovered now e refl) t j h)
  apply-Inserts (recovering_verifications now) t j h = absent (
      update_where-none settings _ _ (recover_verification-id now) (λ o e. released now e refl) t j
        h)
  apply-Inserts (stopping_prepared run_id now) t j h = absent (
      update_where-none settings _ _ (cancel_prepared-id now)
        (λ o e. cancelled now (and_right (of_run run_id o) _ e) refl) t j h)
  apply-Inserts (stopping_executing run_id now) t j h = absent (
      update_where-none settings _ _ (interrupt_executing-id now)
        (λ o e. interrupted now (and_right (of_run run_id o) _ e) refl) t j h)
