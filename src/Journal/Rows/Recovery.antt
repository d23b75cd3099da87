-- ===== src/Journal/Rows/Recovery.antt =====
-- engine/src/api/services/mutation_journal.py: the rows that the bulk updates take, and what they make of one.
use cloudops_agent.Prelude.{ℕ, ◌+◌, Bool, true, ◌&&◌, Option, none, some, ltb}
use cloudops_agent.Json.{bool, str, obj, done, field}
use cloudops_agent.Mutation.Operation.{
  unknown, cancelled, not_required, pending, inconclusive, MutationOperation, is_executing,
  is_verifying,
}

-- The bulk updates: the rows that a filter takes, and what the update makes of one.
unfoldable pub expired : Option ℕ → ℕ → Bool
expired none now = true
expired (some t) now = ltb t now

module _ (now : ℕ) where
  unfoldable pub is_stale_execution : MutationOperation → Bool
  unfolding expired
  is_stale_execution op = is_executing op.execution_status && expired op.lease_expires_at now

  unfoldable pub recover_execution : MutationOperation → MutationOperation
  recover_execution op = record op {
    execution_status = unknown;
    verification_status = pending;
    lease_owner = none;
    lease_expires_at = none;
    verification_lease_owner = none;
    verification_lease_expires_at = none;
    version = op.version + 1;
    updated_at = now;
  }

  unfoldable pub is_stale_verification : MutationOperation → Bool
  unfolding expired
  is_stale_verification op =
      is_verifying op.verification_status && expired op.verification_lease_expires_at now

  unfoldable pub recover_verification : MutationOperation → MutationOperation
  recover_verification op = record op {
    verification_status = inconclusive;
    verification_result = obj (field "reason" (str "verification_lease_expired") done);
    verification_lease_owner = none;
    verification_lease_expires_at = none;
    version = op.version + 1;
    updated_at = now;
  }

  unfoldable pub cancel_prepared : MutationOperation → MutationOperation
  cancel_prepared op = record op {
    execution_status = cancelled;
    verification_status = not_required;
    execution_error = obj (field "error_type" (str "cancelled_before_execution") done);
    finished_at = some now;
    lease_owner = none;
    lease_expires_at = none;
    verification_lease_owner = none;
    verification_lease_expires_at = none;
    version = op.version + 1;
    updated_at = now;
  }

  unfoldable pub interrupt_executing : MutationOperation → MutationOperation
  interrupt_executing op = record op {
    execution_status = unknown;
    verification_status = pending;
    execution_error =
        obj (field "error_type" (str "cancelled") (field "ambiguous_outcome" (bool true) done));
    finished_at = some now;
    lease_owner = none;
    lease_expires_at = none;
    verification_lease_owner = none;
    verification_lease_expires_at = none;
    version = op.version + 1;
    updated_at = now;
  }
