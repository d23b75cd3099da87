-- ===== src/Journal/Rows/Verification.antt =====
-- engine/src/api/services/mutation_journal.py: the verification methods on one row.
use Prim.Native.String.{◌++◌}
use cloudops_agent.Prelude.{
  ℕ, ◌+◌, ◌-◌, ◌/◌, max, String, Bool, true, false, not, ◌&&◌, ◌||◌, Option, none, some, leb, ltb,
  ◌==◌, if◌then◌else◌,
}
use cloudops_agent.Json.{ℤ, pos, negsuc, Value, bool, num, str, obj, done, field}
use cloudops_agent.Json.Access.{truthy}
use cloudops_agent.Settings.{Settings, seconds}
use cloudops_agent.Mutation.Redact.{redact_sensitive}
use cloudops_agent.Mutation.Operation.{
  VerificationStatus, not_required, verifying, passed, verification_failed, inconclusive,
  needs_review, execution_value, verification_value, MutationOperation, is_verifying,
}
use cloudops_agent.Journal.Rows.Execution.{is_verifiable}
use cloudops_agent.Journal.Rows.Actions.{invalid_transition, Action, raise, leave, save, Clock}

-- `(now - created_at).total_seconds() >= limit`, with no subtraction
unfoldable pub verification_budget_exhausted : Settings → MutationOperation → ℕ → Bool
verification_budget_exhausted settings op now =
    leb settings.mutation_max_verification_attempts op.verification_attempt_count
    || leb (op.created_at + seconds settings.mutation_max_verification_age_seconds) now

-- int((now - created_at).total_seconds()), rounded towards zero
abbrev pub whole_seconds : ℕ → ℕ → ℤ
whole_seconds since now =
    if leb since now
    then pos ((now - since) / 1000000)
    else (let n = (since - now) / 1000000 in if leb n 0 then pos 0 else negsuc (n - 1))

-- status in {PASSED, FAILED, NOT_REQUIRED, NEEDS_REVIEW}
abbrev pub is_settled : VerificationStatus → Bool
is_settled passed = true
is_settled verification_failed = true
is_settled not_required = true
is_settled needs_review = true
is_settled _ = false

abbrev pub later_than : Option ℕ → ℕ → Bool
later_than none now = false
later_than (some t) now = ltb now t

abbrev pub owned_by : Option String → String → Bool
owned_by none owner = false
owned_by (some o) owner = o == owner

unfoldable pub lease_active : MutationOperation → ℕ → Bool
lease_active op now =
    is_verifying op.verification_status && later_than op.verification_lease_expires_at now

module _ (settings : Settings) (clock : Clock) where
  verification_lease_seconds : ℕ
  verification_lease_seconds = max settings.mutation_verification_lease_seconds (
      (seconds settings.mutation_verification_timeout_seconds
        + settings.mutation_verification_interval
        + seconds 5)
      / 1000000)

  unfoldable pub give_up : MutationOperation → MutationOperation
  give_up op = record op {
    verification_status = needs_review;
    verification_result = obj (
        field "reason" (str "verification_budget_exhausted") (
          field "verification_attempt_count" (num (pos op.verification_attempt_count)) (
            field "age_seconds" (num (whole_seconds op.created_at (clock 0)))
              (field "manual_review_required" (bool true) done))));
    verification_lease_owner = none;
    verification_lease_expires_at = none;
    version = op.version + 1;
    updated_at = clock 1;
  }

  claimed : String → MutationOperation → MutationOperation
  unfolding verification_lease_seconds
  claimed lease_owner op = record op {
    verification_status = verifying;
    verification_attempt_count = op.verification_attempt_count + 1;
    verification_lease_owner = some lease_owner;
    verification_lease_expires_at = some (clock 0 + seconds verification_lease_seconds);
    version = op.version + 1;
    updated_at = clock 1;
  }

  unfoldable pub claim_verification : String → MutationOperation → Action (MutationOperation × Bool)
  unfolding give_up claimed verification_budget_exhausted lease_active
  claim_verification lease_owner op =
      if not (is_verifiable op.execution_status)
      then raise (
          invalid_transition (
            "Cannot verify operation " ++ op.id ++ " from " ++ execution_value op.execution_status))
      else if is_settled op.verification_status
      then leave (op, false)
      else if verification_budget_exhausted settings op (clock 0)
      then save (give_up op) (give_up op, false)
      else if lease_active op (clock 0) && not (owned_by op.verification_lease_owner lease_owner)
      then leave (op, false)
      else save (claimed lease_owner op) (claimed lease_owner op, true)

abbrev pub is_verification_outcome : VerificationStatus → Bool
is_verification_outcome passed = true
is_verification_outcome verification_failed = true
is_verification_outcome inconclusive = true
is_verification_outcome _ = false

module _ (clock : Clock) where
  verified : VerificationStatus → Value → Option Value → MutationOperation → MutationOperation
  verified status result external_reference op = record op {
    verification_status = status;
    verification_result = redact_sensitive result;
    external_reference = elim external_reference [
      | none ↦ op.external_reference
      | some reference ↦
          if truthy reference then redact_sensitive reference else op.external_reference
    ];
    verification_lease_owner = none;
    verification_lease_expires_at = none;
    version = op.version + 1;
    updated_at = clock 0;
  }

  unfoldable pub record_verification :
      String
      → VerificationStatus
      → Value
      → Option Value
      → MutationOperation
      → Action MutationOperation
  unfolding verified
  record_verification lease_owner status result external_reference op =
      if not (is_verifying op.verification_status)
      then raise (
          invalid_transition (
            "Cannot record verification for "
            ++ op.id
            ++ " from "
            ++ verification_value op.verification_status))
      else if not (owned_by op.verification_lease_owner lease_owner)
      then raise
          (invalid_transition ("Verification lease for " ++ op.id ++ " is owned by another worker"))
      else save (verified status result external_reference op)
          (verified status result external_reference op)

  abandoned : String → MutationOperation → MutationOperation
  abandoned reason op = record op {
    verification_status = inconclusive;
    verification_result = redact_sensitive (obj (field "reason" (str reason) done));
    verification_lease_owner = none;
    verification_lease_expires_at = none;
    version = op.version + 1;
    updated_at = clock 0;
  }

  unfoldable pub abandon_verification : String → String → MutationOperation → Action Bool
  unfolding abandoned
  abandon_verification lease_owner reason op =
      if not (is_verifying op.verification_status)
        || not (owned_by op.verification_lease_owner lease_owner)
      then leave false
      else save (abandoned reason op) true
