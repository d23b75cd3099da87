-- ===== src/Mutation/Operation.antt =====
-- engine/src/api/models/mutation.py: one row of `mutation_operations`. Identifiers are in the text form
-- of a UUID, times in microseconds.
use cloudops_agent.Prelude.{ℕ, String, Bool, true, false, Option}
use cloudops_agent.Json.{Value}

pub data ExecutionStatus : Type 0 where
  prepared executing reported_success execution_failed unknown cancelled : ExecutionStatus

pub data VerificationStatus : Type 0 where
  not_required pending verifying passed verification_failed inconclusive needs_review :
      VerificationStatus

pub data PolicyDecision : Type 0 where
  allow deny : PolicyDecision

pub data ApprovalStatus : Type 0 where
  no_approval awaiting approved rejected : ApprovalStatus

-- status.value
abbrev pub execution_value : ExecutionStatus → String
execution_value prepared = "prepared"
execution_value executing = "executing"
execution_value reported_success = "reported_success"
execution_value execution_failed = "failed"
execution_value unknown = "unknown"
execution_value cancelled = "cancelled"

abbrev pub verification_value : VerificationStatus → String
verification_value not_required = "not_required"
verification_value pending = "pending"
verification_value verifying = "verifying"
verification_value passed = "passed"
verification_value verification_failed = "failed"
verification_value inconclusive = "inconclusive"
verification_value needs_review = "needs_review"

pub record MutationOperation : Type 0 where
  pub id : String
  pub idempotency_key : String
  pub workspace_id : Option String
  pub conversation_id : Option String
  pub run_id : Option String
  pub call_id : Option String
  pub user_id : Option String
  pub user_role : Option String
  pub tool_name : String
  pub tool_category : String
  pub target_identity : Value
  pub redacted_args : Value
  pub args_hmac : String
  pub desired_state_hmac : Option String
  pub policy_decision : PolicyDecision
  pub policy_reason : String
  pub approval_status : ApprovalStatus
  pub approved_by_user_id : Option String
  pub approved_at : Option ℕ
  pub approval_reason : Option String
  pub execution_status : ExecutionStatus
  pub verification_status : VerificationStatus
  pub attempt_count : ℕ
  pub verification_attempt_count : ℕ
  pub external_reference : Value
  pub execution_result : Value
  pub execution_error : Value
  pub verification_plan : Value
  pub verification_result : Value
  pub lease_owner : Option String
  pub lease_expires_at : Option ℕ
  pub verification_lease_owner : Option String
  pub verification_lease_expires_at : Option ℕ
  pub started_at : Option ℕ
  pub finished_at : Option ℕ
  pub created_at : ℕ
  pub updated_at : ℕ
  pub version : ℕ

abbrev pub is_prepared : ExecutionStatus → Bool
is_prepared prepared = true
is_prepared _ = false

abbrev pub is_executing : ExecutionStatus → Bool
is_executing executing = true
is_executing _ = false

abbrev pub is_verifying : VerificationStatus → Bool
is_verifying verifying = true
is_verifying _ = false
