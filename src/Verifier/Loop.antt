-- ===== src/Verifier/Loop.antt =====
-- engine/src/api/services/mutation_verifier.py: `MutationVerifier.verify`. What each pass of an
-- adapter gives is an argument, and so is what the monotonic clock reads after it; `meanwhile` is what
-- other workers do to the journal between the claim and the record. The answer's run id, which only the
-- reads carry, is left out; Cancelled has the cancellation of the task.
pub mod Ends
pub mod Honest
pub mod Agrees
use cloudops_agent.Prelude.{
  ℕ, zero, suc, ◌+◌, String, Bool, true, false, not, ◌&&◌, ◌||◌, Option, none, some, leb, ◌==◌,
  if◌then◌else◌,
}
use cloudops_agent.Settings.{Settings, seconds}
use cloudops_agent.Json.{Value, null, bool, str, obj, Fields, done, field}
use cloudops_agent.Json.Access.{get, lookup, insert, truthy, or_else, fields_of}
use cloudops_agent.Mutation.Operation.{
  MutationOperation, VerificationStatus, not_required, pending, verifying, passed,
  verification_failed, inconclusive, needs_review, verification_value,
}
use cloudops_agent.Verifier.Health.{is_text}
use cloudops_agent.Journal.Rows.{Clock, Error}
use cloudops_agent.Journal.Table.{
  Table, Result, ok, err, find_row, claim_verification_row, record_verification_row, public_summary,
}

-- What one pass gives: passed, terminal and the evidence, or an exception by its type's name.
pub data Pass : Type 0 where
  gave : Bool → Bool → Fields → Pass
  raised : String → Pass

abbrev pub adapter_error : String → Fields
adapter_error name =
    field "reason" (str "verification_adapter_error") (field "detail" (str name) done)

abbrev pub with_reason : String → Fields → Fields
with_reason why last_result = insert "reason" (str why) last_result

abbrev pub time_out : Fields → VerificationStatus × Fields
time_out last_result =
    if truthy (get "partial_commit_detected" last_result)
    then (verification_failed, with_reason "partial_commit_detected" last_result)
    else (inconclusive, with_reason "verification_timeout" last_result)

-- One pass by the adapter: `_verify_kubernetes`, `_verify_helm`, or neither.
abbrev pub adapter_pass : Value → Pass → Pass → Pass
adapter_pass adapter kubernetes helm =
    if is_text "kubernetes_apply" adapter
    then kubernetes
    else if is_text "helm_release" adapter
    then helm
    else gave false true (field "reason" (str "verification_adapter_not_supported") done)

-- The tests that end the loop; `none` where it goes on.
abbrev pub decide : ℕ → ℕ → Bool → Bool → Fields → Option (VerificationStatus × Fields)
decide deadline now passed_now terminal last_result =
    if passed_now
    then some (passed, last_result)
    else if terminal
    then some (verification_failed, last_result)
    else if leb deadline now
    then some (time_out last_result)
    else none

abbrev pub conclude : ℕ → ℕ → Pass → Option (VerificationStatus × Fields)
conclude deadline now (gave passed_now terminal last_result) =
    decide deadline now passed_now terminal last_result
conclude deadline now (raised name) = decide deadline now false false (adapter_error name)

abbrev pub or_again {ℓ} : {A : Type ℓ} → Option A → Option A → Option A
or_again none rest = rest
or_again (some a) rest = some a

module _ (deadline : ℕ) (pass : ℕ → Pass) (time : ℕ → ℕ) where
  -- The loop from the n-th pass on; `none` where the fuel ends first.
  unfoldable pub passes : ℕ → ℕ → Option (VerificationStatus × Fields)
  passes zero n = none
  passes (suc fuel) n = or_again (conclude deadline (time n) (pass n)) (passes fuel (n + 1))

pub record Answer : Type 0 where
  pub passed : Bool
  pub inconclusive : Bool
  pub status : Option VerificationStatus
  pub operation : Option Fields
  pub evidence : Option Value
  pub reason : Option String

abbrev pub is_passed : VerificationStatus → Bool
is_passed passed = true
is_passed _ = false

abbrev pub is_inconclusive : VerificationStatus → Bool
is_inconclusive inconclusive = true
is_inconclusive _ = false

-- status in {FAILED, NEEDS_REVIEW}
abbrev pub is_conclusive_failure : VerificationStatus → Bool
is_conclusive_failure verification_failed = true
is_conclusive_failure needs_review = true
is_conclusive_failure _ = false

abbrev pub not_found : Answer
not_found = record {
  passed = false;
  inconclusive = true;
  status = none;
  operation = none;
  evidence = none;
  reason = some "operation_not_found";
}

abbrev pub already_verifying : Value
already_verifying = obj (field "reason" (str "verification_already_in_progress") done)

-- The answer where another worker has the claim, or the verification is settled.
unfoldable pub unclaimed : MutationOperation → Answer
unclaimed op =
    if is_passed op.verification_status
    then record {
      passed = true;
      inconclusive = false;
      status = some op.verification_status;
      operation = some (public_summary op);
      evidence = some (or_else op.verification_result (obj done));
      reason = none;
    }
    else record {
      passed = false;
      inconclusive = not (is_conclusive_failure op.verification_status);
      status = some op.verification_status;
      operation = some (public_summary op);
      evidence = some (or_else op.verification_result already_verifying);
      reason = none;
    }

unfoldable pub concluded : VerificationStatus → Fields → MutationOperation → Answer
concluded status last_result op = record {
  passed = is_passed status;
  inconclusive = is_inconclusive status;
  status = some status;
  operation = some (public_summary op);
  evidence = some (obj last_result);
  reason = none;
}

module _ (settings : Settings) (clock later_clock : Clock) (id owner : String)
    (kubernetes helm : ℕ → Pass) (started : ℕ) (time : ℕ → ℕ) (meanwhile : Table → Table)
    (fuel : ℕ) where
  abbrev pub deadline : ℕ
  deadline = started + seconds settings.mutation_verification_timeout_seconds

  -- The passes of the adapter that the operation's plan names.
  abbrev pub pass_of : MutationOperation → ℕ → Pass
  pass_of op n =
      adapter_pass (get "adapter" (fields_of op.verification_plan)) (kubernetes n) (helm n)

  abbrev pub recorded :
      VerificationStatus → Fields → Result MutationOperation × Table → Result Answer × Table
  recorded status last_result (ok op, t) = (ok (concluded status last_result op), t)
  recorded status last_result (err e, t) = (err e, t)

  abbrev pub record_result :
      Table → Option (VerificationStatus × Fields) → Option (Result Answer × Table)
  record_result t none = none
  record_result t (some (status, last_result)) = some (
      recorded status last_result (
        record_verification_row settings later_clock id owner status (obj last_result)
          (lookup "external_reference" last_result) (meanwhile t)))

  abbrev pub after_claim :
      Result (MutationOperation × Bool) × Table → Option (Result Answer × Table)
  after_claim (err e, t) = some (err e, t)
  after_claim (ok (op, false), t) = some (ok (unclaimed op), t)
  after_claim (ok (op, true), t) = record_result t (passes deadline (pass_of op) time fuel 0)

  abbrev pub verify_row : Option MutationOperation → Table → Option (Result Answer × Table)
  verify_row none t = some (ok not_found, t)
  verify_row (some op) t = after_claim (claim_verification_row settings clock id owner t)

  -- `none` where the fuel ends before the loop does
  unfoldable pub verify : Table → Option (Result Answer × Table)
  verify t = verify_row (find_row id t) t
