-- ===== src/Journal/Steps.antt =====
-- engine/src/api/services/mutation_journal.py: every call of the journal as an event, and what an event
-- can make of one row.
pub mod Locked
pub mod Bulk
pub mod Apply
use mathlib.Core.Option
use cloudops_agent.Prelude.{
  ℕ, ◌+◌, String, Bool, true, false, Option, none, some, is_some, ◌≡◌, refl, ap, sym, ◌∙◌, arith,
  List, [], ◌∷◌, ◌++◌, ◌⊎◌, inl, inr, Bool-cases, Option-cases, some_inj, eq_iff, ◌==◌,
  if◌then◌else◌, ◌&&◌,
}
use cloudops_agent.Json.{Value, Fields}
use cloudops_agent.Settings.{Settings}
use cloudops_agent.Mutation.Manifest.{Yaml}
use cloudops_agent.Mutation.Operation.{
  MutationOperation, ExecutionStatus, VerificationStatus, is_prepared, is_executing,
}
use cloudops_agent.Policy.{MutationPolicyDecision}
use cloudops_agent.Journal.Rows.{
  Action, raise, leave, save, Clock, mark_executing, record_execution, claim_verification,
  record_verification, abandon_verification, is_stale_execution, recover_execution,
  is_stale_verification, recover_verification, cancel_prepared, interrupt_executing, is_outcome,
  is_verification_outcome,
}
use cloudops_agent.Journal.Table.{
  Table, Context, Result, ok, err, find_row, write_row, commit, on_row, locked, prepare,
  mark_executing_row, record_execution_row, claim_verification_row, record_verification_row,
  abandon_verification_row, recover_stale_executions, recover_stale_verifications,
  cancel_run_prepared, interrupt_run_executing, update_where, of_run,
}
use cloudops_agent.Journal.Lookup.{find_row-id, find_row-write_row, find_row-update_where}

-- One call, with what it is given and the times that it reads; a stop of a run is two of them, since its
-- two updates are committed one by one.
pub data Event : Type 0 where
  preparing :
      Clock
      → String
      → String
      → String
      → String
      → Fields
      → Context
      → MutationPolicyDecision
      → Fields
      → Event
  starting : Clock → String → String → Event
  finishing : Clock → String → ExecutionStatus → Option Value → Option Value → Event
  claiming : Clock → String → String → Event
  concluding : Clock → String → String → VerificationStatus → Value → Option Value → Event
  abandoning : Clock → String → String → String → Event
  recovering_executions : ℕ → Event
  recovering_verifications : ℕ → Event
  stopping_prepared : String → ℕ → Event
  stopping_executing : String → ℕ → Event

module _ (settings : Settings) (yaml : Yaml) (digest : String → String → String) where
  unfoldable pub apply : Event → Table → Table
  apply (preparing clock id run_id call_id tool args context policy plan) t =
      (prepare settings yaml digest clock (λ u. u) id run_id call_id tool args context policy plan
        t).1
  apply (starting clock id owner) t = (mark_executing_row settings clock id owner t).1
  apply (finishing clock id status result error) t =
      (record_execution_row settings clock id status result error t).1
  apply (claiming clock id owner) t = (claim_verification_row settings clock id owner t).1
  apply (concluding clock id owner status result reference) t =
      (record_verification_row settings clock id owner status result reference t).1
  apply (abandoning clock id owner reason) t =
      (abandon_verification_row settings clock id owner reason t).1
  apply (recovering_executions now) t = (recover_stale_executions now t).1
  apply (recovering_verifications now) t = (recover_stale_verifications now t).1
  apply (stopping_prepared run_id now) t = (cancel_run_prepared run_id now t).1
  apply (stopping_executing run_id now) t = (interrupt_run_executing run_id now t).1

  unfoldable pub run : List Event → Table → Table
  run [] t = t
  run (e ∷ es) t = run es (apply e t)

-- What one event can make of a row that is there.
pub data RowStep (settings : Settings) (op op' : MutationOperation) : Type 0 where
  idle : op' ≡ op → RowStep settings op op'
  started :
      (clock : Clock) (owner : String) (r : MutationOperation)
      → mark_executing settings clock owner op ≡ save op' r
      → RowStep settings op op'
  finished :
      (clock : Clock) (status : ExecutionStatus) (result error : Option Value)
      (r : MutationOperation)
      → is_outcome status ≡ true
      → record_execution clock status result error op ≡ save op' r
      → RowStep settings op op'
  claimed :
      (clock : Clock) (owner : String) (r : MutationOperation × Bool)
      → claim_verification settings clock owner op ≡ save op' r
      → RowStep settings op op'
  concluded :
      (clock : Clock) (owner : String) (status : VerificationStatus) (result : Value)
      (reference : Option Value) (r : MutationOperation)
      → is_verification_outcome status ≡ true
      → record_verification clock owner status result reference op ≡ save op' r
      → RowStep settings op op'
  abandoned :
      (clock : Clock) (owner reason : String) (r : Bool)
      → abandon_verification clock owner reason op ≡ save op' r
      → RowStep settings op op'
  recovered :
      (now : ℕ)
      → is_stale_execution now op ≡ true
      → op' ≡ recover_execution now op
      → RowStep settings op op'
  released :
      (now : ℕ)
      → is_stale_verification now op ≡ true
      → op' ≡ recover_verification now op
      → RowStep settings op op'
  cancelled :
      (now : ℕ)
      → is_prepared op.execution_status ≡ true
      → op' ≡ cancel_prepared now op
      → RowStep settings op op'
  interrupted :
      (now : ℕ)
      → is_executing op.execution_status ≡ true
      → op' ≡ interrupt_executing now op
      → RowStep settings op op'
