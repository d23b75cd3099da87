-- ===== src/Journal/Table/Methods.antt =====
-- engine/src/api/services/mutation_journal.py: the methods that lock a row, and the bulk updates.
use cloudops_agent.Prelude.{ℕ, String, Bool, false, ◌&&◌, Option, none, some, ◌==◌, if◌then◌else◌}
use Prim.Native.String.{◌++◌ as join_text}
use cloudops_agent.Json.{Value, num, str, Fields, done, field, pos}
use cloudops_agent.Settings.{Settings}
use cloudops_agent.Mutation.Operation.{
  ExecutionStatus, VerificationStatus, MutationOperation, is_prepared, is_executing,
  execution_value, verification_value,
}
use cloudops_agent.Journal.Rows.{
  invalid_transition, Clock, mark_executing, record_execution, claim_verification,
  record_verification, abandon_verification, is_stale_execution, recover_execution,
  is_stale_verification, recover_verification, cancel_prepared, interrupt_executing, is_outcome,
  is_verification_outcome,
}
use cloudops_agent.Journal.Table.Store.{Result, err, Table, locked, update_where}

-- The methods that lock a row.
module _ (settings : Settings) (clock : Clock) where
  abbrev pub mark_executing_row : String → String → Table → Result MutationOperation × Table
  mark_executing_row id owner = locked id (mark_executing settings clock owner)

  -- An outcome that is none is refused before the row is read.
  abbrev pub record_execution_row :
      String
      → ExecutionStatus
      → Option Value
      → Option Value
      → Table
      → Result MutationOperation × Table
  record_execution_row id status result error t =
      if is_outcome status then locked id (record_execution clock status result error) t else (
        err (invalid_transition (join_text "Invalid execution outcome: " (execution_value status))),
        t,
      )

  abbrev pub claim_verification_row :
      String → String → Table → Result (MutationOperation × Bool) × Table
  claim_verification_row id owner = locked id (claim_verification settings clock owner)

  abbrev pub record_verification_row :
      String
      → String
      → VerificationStatus
      → Value
      → Option Value
      → Table
      → Result MutationOperation × Table
  record_verification_row id owner status result reference t =
      if is_verification_outcome status
      then locked id (record_verification clock owner status result reference) t
      else (
        err (
            invalid_transition
              (join_text "Invalid verification outcome: " (verification_value status))),
        t,
      )

  abbrev pub abandon_verification_row : String → String → String → Table → Result Bool × Table
  abandon_verification_row id owner reason = locked id (abandon_verification clock owner reason)

-- The bulk updates.
unfoldable pub recover_stale_executions : ℕ → Table → ℕ × Table
recover_stale_executions now = update_where (is_stale_execution now) (recover_execution now)

unfoldable pub recover_stale_verifications : ℕ → Table → ℕ × Table
recover_stale_verifications now =
    update_where (is_stale_verification now) (recover_verification now)

abbrev pub of_run : String → MutationOperation → Bool
of_run run_id op = elim op.run_id [ none ↦ false | some r ↦ r == run_id ]

-- The two updates of `converge_stopped_run`, each committed by itself, with the counts of rows.
unfoldable pub cancel_run_prepared : String → ℕ → Table → ℕ × Table
cancel_run_prepared run_id now t =
    update_where (λ op. of_run run_id op && is_prepared op.execution_status) (cancel_prepared now) t

unfoldable pub interrupt_run_executing : String → ℕ → Table → ℕ × Table
interrupt_run_executing run_id now t =
    update_where (λ op. of_run run_id op && is_executing op.execution_status)
      (interrupt_executing now) t

-- `converge_stopped_run`; `between` is what other workers do between its two updates.
unfoldable pub converge_stopped_run : String → ℕ → (Table → Table) → Table → (ℕ × ℕ) × Table
converge_stopped_run run_id now between t =
    let (cancelled, t') = cancel_run_prepared run_id now t in
    let (unknown, t'') = interrupt_run_executing run_id now (between t') in
    ((cancelled, unknown), t'')

-- `public_summary`
unfoldable pub public_summary : MutationOperation → Fields
public_summary op = field "operation_id" (str op.id) (
    field "tool" (str op.tool_name) (
      field "execution_status" (str (execution_value op.execution_status)) (
        field "verification_status" (str (verification_value op.verification_status)) (
          field "attempt_count" (num (pos op.attempt_count))
            (field "verification_attempt_count" (num (pos op.verification_attempt_count)) done)))))
