-- ===== src/Verifier/Tests.antt =====
-- The verifier at concrete resources.
mod Helm
mod Recovery
use cloudops_agent.Prelude.{
  ◌==◌, ℕ, ◌+◌, ◌*◌, String, Bool, true, false, Option, none, some, is_some, List, [], ◌∷◌, ◌≡◌,
  refl, arith, All, ◌&&◌, one_of, nat_eq, if◌then◌else◌,
}
use cloudops_agent.Text.{lower, strip, join}
use cloudops_agent.Json.{ℤ, pos, num, str, obj, arr, Value, Fields, done, field, of_list}
use cloudops_agent.Json.Access.{get, lookup, insert}
use cloudops_agent.Json.Print.{text}
use cloudops_agent.Settings.{Settings}
use cloudops_agent.Capability.{ToolCapability, mutation, get_tool_capability}
use cloudops_agent.Mutation.Manifest.{Yaml}
use cloudops_agent.Mutation.Redact.{redact_sensitive, redact_fields}
use cloudops_agent.Mutation.Operation.{
  MutationOperation, pending, allow, approved, reported_success,
}
use cloudops_agent.Journal.Rows.{
  Clock, claim_verification, record_verification, lease_active, verification_budget_exhausted,
}
use cloudops_agent.Journal.Table.{Table, Result, ok, locked, find_row, write_row}
use cloudops_agent.Policy.{is_nil}
use cloudops_agent.Verifier.Plan.{build_verification_plan, build_verification_plan-adapter}
use cloudops_agent.Verifier.Match.{
  subset_matches, fields_match, named_match, items_match, all_named, by_name,
}
use cloudops_agent.Verifier.Match.Reflexive.{IsPlain, subset_matches_refl}
use cloudops_agent.Verifier.Health.{
  workload_health, deployment_health, dict_items, kind_of, dict_of, int_or_zero, int_le,
}
use cloudops_agent.Verifier.Health.Verdicts.{workload_health-IsSound}
use cloudops_agent.Verifier.Kubernetes.{
  targets_of_plan, target_args, read_of, result_text, block_texts, Read, found, verify_kubernetes,
  observe, observe_found,
}
use cloudops_agent.Verifier.Kubernetes.Sound.{PlanVerified, verify_kubernetes-IsVerified}
use cloudops_agent.Verifier.Loop.{Pass, gave, Answer, not_found, verify, passes, concluded}
use cloudops_agent.Verifier.Loop.Ends.{verify-some}
use cloudops_agent.Verifier.Loop.Agrees.{HasPassed, verify-HasPassed}

abbrev pub settings : Settings
settings = record {
  internal_api_key = "key";
  skyflo_environment = "production";
  mutation_control_enabled = true;
  mutation_allowed_namespaces = "default";
  mutation_lease_seconds = 300;
  mutation_verification_lease_seconds = 180;
  mutation_verification_timeout_seconds = 90;
  mutation_verification_interval = 2000000;
  mutation_recovery_grace_seconds = 30;
  mutation_recovery_batch_size = 10;
  mutation_max_verification_attempts = 5;
  mutation_max_verification_age_seconds = 3600;
}

abbrev pub reader : Yaml
reader = record {
  load_all = λ s. none;
  dump_all = λ ds. "";
  load = λ s. none;
  dump = λ v. "";
  error_text = λ s. "";
  spread_aliases = λ s ds. ds;
}

abbrev upgrade : ToolCapability
upgrade = record {
  effect = mutation;
  enabled = true;
  controlled = true;
  verification_adapter = some "helm_release";
}

upgrade_found : get_tool_capability "helm_upgrade" ≡ some upgrade
unfolding get_tool_capability one_of
upgrade_found = refl

abbrev upgrade_plan : Fields
upgrade_plan = field "supported" (Value.bool true) (
    field "adapter" (str "helm_release") (
      field "operation_id" (str "op-1")
        (field "release_name" (str "web") (field "namespace" (str "default") done))))

upgrade_planned :
    build_verification_plan reader "helm_upgrade" (field "release_name" (str "web") done) "op-1"
    ≡ some upgrade_plan
unfolding build_verification_plan one_of lookup
upgrade_planned = refl

build_verification_plan-adapter_example :
    (adapter : String) × (upgrade.verification_adapter ≡ some adapter)
    × (get "adapter" upgrade_plan ≡ str adapter)
build_verification_plan-adapter_example =
    build_verification_plan-adapter reader "helm_upgrade" upgrade
      (field "release_name" (str "web") done) "op-1" upgrade_plan upgrade_found refl refl
      upgrade_planned

abbrev containers : Value
containers = arr (
    of_list (
      obj (field "name" (str "web") (field "image" (str "web:2") done))
      ∷ obj (field "name" (str "log") (field "image" (str "log:1") done))
      ∷ []))

abbrev pub web_spec : Fields
web_spec = field "replicas" (num (pos 2)) (field "containers" containers done)

-- A desired spec is found in one with more fields, and list items are found by their names.
subset_by_names :
    subset_matches (arr (of_list (obj (field "name" (str "log") done) ∷ []))) containers ≡ true
unfolding subset_matches fields_match named_match items_match all_named by_name lookup
subset_by_names = refl

abbrev web_marks : Fields
web_marks =
    field "skyflo.ai/operation-id" (str "op-1")
      (field "skyflo.ai/desired-state-hmac" (str "hmac") done)

abbrev web_metadata : Fields
web_metadata =
    field "name" (str "web")
      (field "generation" (num (pos 3)) (field "annotations" (obj web_marks) done))

abbrev web_status : Fields
web_status =
    field "observedGeneration" (num (pos 3))
      (field "availableReplicas" (num (pos 2)) (field "updatedReplicas" (num (pos 2)) done))

abbrev pub web : Fields
web = field "kind" (str "Deployment") (
    field "metadata" (obj web_metadata)
      (field "spec" (obj web_spec) (field "status" (obj web_status) done)))

abbrev web_detail : String
web_detail = "deployment observed=3/3, updated=2/2, available=2/2, unavailable=0"

web_healthy : workload_health web ≡ some (true, false, web_detail)
unfolding workload_health deployment_health lookup dict_items lower text
web_healthy = refl

workload_health-IsSound_example :
    ((true && false) ≡ false)
    × (true ≡ true
        → one_of ("deployment" ∷ "statefulset" ∷ "daemonset" ∷ []) (kind_of web) ≡ true
        → (metadata : Fields) × (status : Fields) × (generation : ℤ) × (observed : ℤ) × (dict_of
              (get "metadata" web)
            ≡ some metadata)
          × (dict_of (get "status" web) ≡ some status)
          × (int_or_zero (get "generation" metadata) ≡ some generation)
          × (int_or_zero (get "observedGeneration" status) ≡ some observed)
          × (int_le generation observed ≡ true))
workload_health-IsSound_example = workload_health-IsSound web true false web_detail web_healthy

abbrev pub row : MutationOperation
row = record {
  id = "op-1";
  idempotency_key = "key-1";
  workspace_id = none;
  conversation_id = none;
  run_id = some "run-1";
  call_id = some "call-1";
  user_id = some "u1";
  user_role = some "admin";
  tool_name = "k8s_apply";
  tool_category = "k8s";
  target_identity = obj done;
  redacted_args = obj done;
  args_hmac = "hmac";
  desired_state_hmac = some "hmac";
  policy_decision = allow;
  policy_reason = "allowed";
  approval_status = approved;
  approved_by_user_id = some "u1";
  approved_at = some 0;
  approval_reason = none;
  execution_status = reported_success;
  verification_status = pending;
  attempt_count = 1;
  verification_attempt_count = 0;
  external_reference = obj done;
  execution_result = obj done;
  execution_error = obj done;
  verification_plan = obj (field "adapter" (str "kubernetes_apply") done);
  verification_result = obj done;
  lease_owner = none;
  lease_expires_at = none;
  verification_lease_owner = none;
  verification_lease_expires_at = none;
  started_at = some 0;
  finished_at = some 0;
  created_at = 0;
  updated_at = 0;
  version = 3;
}

abbrev web_target : Fields
web_target = field "kind" (str "Deployment") (
    field "name" (str "web")
      (field "namespace" (str "default") (field "desired_spec" (obj web_spec) done)))

abbrev served : ℕ → String → Fields → Fields
served n tool args =
    field "content"
      (arr (of_list (obj (field "type" (str "text") (field "text" (str "web") done)) ∷ []))) done

abbrev loaded : String → Option Value
loaded s = if s == "web" then some (obj web) else none

abbrev planned : MutationOperation
planned = record row {
  verification_plan = obj (
      field "adapter" (str "kubernetes_apply")
        (field "targets" (arr (of_list (obj web_target ∷ []))) done));
}

abbrev result_of : Option (Bool × Bool × Fields) → Fields
result_of none = done
result_of (some (p, t, d)) = d

abbrev web_result : Option (Bool × Bool × Fields)
web_result = verify_kubernetes planned loaded served

web_verified : web_result ≡ some (true, false, result_of web_result)
unfolding verify_kubernetes targets_of_plan observe target_args read_of result_text block_texts
    observe_found workload_health deployment_health lookup dict_items lower strip join text
    subset_matches fields_match named_match items_match all_named by_name
web_verified = refl

verify_kubernetes-IsVerified_example : PlanVerified planned loaded served
verify_kubernetes-IsVerified_example =
    verify_kubernetes-IsVerified planned loaded served false (result_of web_result) web_verified

-- The third pass finds the workload ready.
abbrev third : ℕ → Pass
third n = if nat_eq n 2 then gave true false done else gave false false done

abbrev pub clock : Clock
clock i = 1000 + i

abbrev pub time : ℕ → ℕ
time n = (n + 1) * 2000000

verify-some_example :
    is_some (verify settings clock clock "op-1" "v1" third third 0 time (λ t. t) 50 (row ∷ []))
    ≡ true
verify-some_example =
    verify-some settings clock clock "op-1" "v1" third third 0 time (λ t. t) 50 (row ∷ []) 45
      (omega arith) (omega arith)

abbrev outcome : Option (Result Answer × Table)
outcome = verify settings clock clock "op-1" "v1" third third 0 time (λ t. t) 50 (row ∷ [])

abbrev answer_or : Option (Result Answer × Table) → Answer → Answer
answer_or (some (ok answer, t)) other = answer
answer_or _ other = other

abbrev table_of : Option (Result Answer × Table) → Table
table_of none = []
table_of (some (r, t)) = t

abbrev answered : Answer
answered = answer_or outcome not_found

outcome-answered : outcome ≡ some (ok answered, table_of outcome)
unfolding verify passes locked find_row write_row claim_verification record_verification
    lease_active verification_budget_exhausted concluded lookup redact_sensitive redact_fields
    insert
outcome-answered = refl

answered_passed : answered.passed ≡ true
unfolding verify passes locked find_row write_row claim_verification record_verification
    lease_active verification_budget_exhausted concluded lookup redact_sensitive redact_fields
    insert
answered_passed = refl

verify-HasPassed_example : HasPassed "op-1" (table_of outcome)
verify-HasPassed_example =
    verify-HasPassed settings clock clock "op-1" "v1" third third 0 time (λ t. t) 50 (row ∷ [])
      answered (table_of outcome) outcome-answered answered_passed
