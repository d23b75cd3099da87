-- ===== src/Journal/Rows/Execution.antt =====
-- engine/src/api/services/mutation_journal.py: `mark_executing` and `record_execution` on one row.
use Prim.Native.String.{◌++◌}
use cloudops_agent.Prelude.{
  ℕ, ◌+◌, String, Bool, true, false, not, Option, none, some, if◌then◌else◌,
}
use cloudops_agent.Json.{Value, obj, done}
use cloudops_agent.Json.Access.{truthy}
use cloudops_agent.Settings.{Settings, seconds}
use cloudops_agent.Mutation.Redact.{redact_sensitive}
use cloudops_agent.Mutation.Operation.{
  ExecutionStatus, prepared, executing, reported_success, execution_failed, unknown, cancelled,
  not_required, execution_value, MutationOperation, is_prepared, is_executing,
}
use cloudops_agent.Journal.Rows.Actions.{invalid_transition, Action, raise, save, Clock}

abbrev pub or_now : Option ℕ → ℕ → Option ℕ
or_now none now = some now
or_now (some t) now = some t

module _ (settings : Settings) (clock : Clock) where
  unfoldable pub mark_executing : String → MutationOperation → Action MutationOperation
  mark_executing lease_owner op =
      if not (is_prepared op.execution_status)
      then raise (
          invalid_transition (
            "Cannot execute operation "
            ++ op.id
            ++ " from "
            ++ execution_value op.execution_status))
      else (let op' : MutationOperation = record op {
        execution_status = executing;
        attempt_count = op.attempt_count + 1;
        started_at = or_now op.started_at (clock 0);
        lease_owner = some lease_owner;
        lease_expires_at = some (clock 1 + seconds settings.mutation_lease_seconds);
        version = op.version + 1;
        updated_at = clock 2;
      } in
          save op' op')

-- result or {}
abbrev pub or_no_fields : Option Value → Value
or_no_fields none = obj done
or_no_fields (some v) = if truthy v then v else obj done

abbrev pub is_outcome : ExecutionStatus → Bool
is_outcome reported_success = true
is_outcome execution_failed = true
is_outcome unknown = true
is_outcome cancelled = true
is_outcome prepared = false
is_outcome executing = false

-- status in {FAILED, CANCELLED}
abbrev pub is_unsuccessful : ExecutionStatus → Bool
is_unsuccessful execution_failed = true
is_unsuccessful cancelled = true
is_unsuccessful _ = false

-- status in {REPORTED_SUCCESS, UNKNOWN}
abbrev pub is_verifiable : ExecutionStatus → Bool
is_verifiable reported_success = true
is_verifiable unknown = true
is_verifiable _ = false

module _ (clock : Clock) where
  record_outcome :
      ExecutionStatus → Option Value → Option Value → MutationOperation → MutationOperation
  record_outcome status result error op =
      let op' : MutationOperation = record op {
        execution_status = status;
        execution_result = redact_sensitive (or_no_fields result);
        execution_error = redact_sensitive (or_no_fields error);
        lease_owner = none;
        lease_expires_at = none;
        finished_at = some (clock 0);
        version = op.version + 1;
        updated_at = clock 1;
      } in
      if is_unsuccessful status
      then record op' {
        verification_status = not_required;
        verification_lease_owner = none;
        verification_lease_expires_at = none;
      }
      else op'

  unfoldable pub record_execution :
      ExecutionStatus → Option Value → Option Value → MutationOperation → Action MutationOperation
  unfolding record_outcome
  record_execution status result error op =
      if not (is_executing op.execution_status)
      then raise (
          invalid_transition (
            "Cannot record outcome for "
            ++ op.id
            ++ " from "
            ++ execution_value op.execution_status))
      else save (record_outcome status result error op) (record_outcome status result error op)
