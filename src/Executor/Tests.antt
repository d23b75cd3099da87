-- ===== src/Executor/Tests.antt =====
-- Tools at concrete sessions and calls.
use cloudops_agent.Prelude.{
  ◌+◌, ◌≤◌, String, Bool, true, false, none, some, [], ◌∷◌, ◌≡◌, refl, All, one_of,
}
use cloudops_agent.Json.{bool, str, arr, obj, nil, cons, Fields, done, field}
use cloudops_agent.Settings.{Settings}
use cloudops_agent.Mutation.Manifest.{
  Yaml, redact_tool_args, attach_operation_metadata, parse_manifest_targets,
}
use cloudops_agent.Mutation.Operation.{executing, MutationOperation}
use cloudops_agent.Journal.Rows.{Clock, mark_executing, record_execution}
use cloudops_agent.Journal.Table.{
  Context, find_row, prepare, first_where, create_or_reuse, new_operation, locked, write_row, reuse,
}
use cloudops_agent.Journal.Steps.{run}
use cloudops_agent.Journal.History.Once.{may_start}
use cloudops_agent.Executor.Admit.{
  decision, Call, admit, validate_tool_parameters, check_mutation, check_approval,
  controlled_mutation,
}
use cloudops_agent.Executor.Toolsets.{
  filter_tools_by_loaded_toolsets, strip_params, is_engine_owned, strip_properties,
}
use cloudops_agent.Executor.Toolsets.Laws.{
  Offered, filter_tools_by_loaded_toolsets-Offered, shown_property,
}
use cloudops_agent.Executor.Run.{
  start, conclude, World, returned, execute, call_controlled, perform, attached, after, notices,
}
use cloudops_agent.Executor.Run.Once.{calls_for, session, session-once}
use cloudops_agent.Capability.{
  capability_error, is_infrastructure_tool, metadata_error, registry_error, registered_error,
  get_tool_capability,
}
use cloudops_agent.Json.Access.{lookup, insert}
use cloudops_agent.Executor.Jenkins.{
  tool_has_jenkins_tag, inject_jenkins_metadata_tool_args, is_jenkins_tool,
}
use cloudops_agent.Executor.Metadata.{need_approval}
use cloudops_agent.Verifier.Plan.{build_verification_plan}
use cloudops_agent.Policy.{
  evaluate, allowed_namespaces, insert_text, sorted_set, MutationPolicyDecision,
}
use cloudops_agent.Executor.Duplicates.{suppress}
use cloudops_agent.Executor.Blocks.{had_error, content_blocks}
use cloudops_agent.Text.{lower, strip, split, remove}
use cloudops_agent.Json.Print.{text}
use cloudops_agent.Executor.Run.Guarded.{acts}
use cloudops_agent.Executor.Admit.Authorized.{Authorized}
use cloudops_agent.Journal.Prepare.{fresh}
use cloudops_agent.Executor.Run.Settled.{Settled, call_controlled-Settled}

abbrev settings : Settings
settings = record {
  internal_api_key = "key";
  skyflo_environment = "production";
  mutation_control_enabled = true;
  mutation_allowed_namespaces = "default";
  mutation_lease_seconds = 300;
  mutation_verification_lease_seconds = 180;
  mutation_verification_timeout_seconds = 120;
  mutation_verification_interval = 2000000;
  mutation_recovery_grace_seconds = 30;
  mutation_recovery_batch_size = 10;
  mutation_max_verification_attempts = 5;
  mutation_max_verification_age_seconds = 3600;
}

abbrev reader : Yaml
reader = record {
  load_all = λ s. none;
  dump_all = λ ds. "";
  load = λ s. none;
  dump = λ v. "";
  error_text = λ s. "";
  spread_aliases = λ s ds. ds;
}

abbrev digest : String → String → String
digest key payload = payload

abbrev clock : Clock
clock i = 1000000 + i

abbrev tool : String → Bool → Fields
tool name read_only = field "name" (str name) (
    field "annotations" (obj (field "readOnlyHint" (bool read_only) done)) (
      field "inputSchema" (obj (field "required" (arr (cons (str "release_name") nil)) done)) done))

abbrev context : Context
context = record {
  idempotency_key = some "key-1";
  workspace_id = none;
  conversation_id = some "c1";
  user_id = some "u1";
  user_role = some "admin";
  environment = none;
  approval_decisions = ("call-1", true) ∷ [];
  approval_reasons = [];
}

abbrev call : Call
call = record {
  run_id = "run-1";
  name = "helm_upgrade";
  args = field "release_name" (str "web") (field "namespace" (str "default") done);
  context = context;
  call_id = "call-1";
  operation_id = "op-1";
  metadata = some (tool "helm_upgrade" false);
  metadata_again = some (tool "helm_upgrade" false);
  metadata_for_approval = some (tool "helm_upgrade" false);
  integration = none;
  listening = true;
}

abbrev world : World
world = record {
  prepare_clock = clock;
  start_clock = clock;
  finish_clock = clock;
  error_text = λ e. "error";
  attach_error = "error";
  before_start = [];
  before_call = [];
  during_call = [];
  respond = λ args. returned (obj (field "content" (arr nil) done));
}

session-once_example :
    calls_for "op-1"
      (session settings reader digest (([], call, world) ∷ ([], call, world) ∷ []) []).0
    ≤ may_start (find_row "op-1" [])
session-once_example =
    session-once settings reader digest (([], call, world) ∷ ([], call, world) ∷ []) [] "op-1"

-- The second execution is suppressed.
session_runs :
    calls_for "op-1"
      (session settings reader digest (([], call, world) ∷ ([], call, world) ∷ []) []).0
    ≡ 1
unfolding calls_for session execute admit capability_error is_infrastructure_tool metadata_error
    registry_error registered_error get_tool_capability one_of lookup tool_has_jenkins_tag
    inject_jenkins_metadata_tool_args is_jenkins_tool validate_tool_parameters check_mutation
    check_approval decision controlled_mutation need_approval build_verification_plan evaluate
    redact_tool_args perform start attached call_controlled after notices conclude prepare
    first_where create_or_reuse new_operation locked mark_executing record_execution write_row
    suppress find_row attach_operation_metadata had_error content_blocks insert lower strip split
    remove text allowed_namespaces insert_text sorted_set parse_manifest_targets reuse
session_runs = refl

filter_tools_by_loaded_toolsets-Offered_example : All (Offered (("helm", false) ∷ [])) (
    filter_tools_by_loaded_toolsets
      (tool "helm_status" true ∷ tool "helm_upgrade" false ∷ [])
      (("helm", false) ∷ []))
filter_tools_by_loaded_toolsets-Offered_example =
    filter_tools_by_loaded_toolsets-Offered
      (tool "helm_status" true ∷ tool "helm_upgrade" false ∷ []) (("helm", false) ∷ [])

acts_once : acts (execute settings reader digest call world []).effects ≡ true
unfolding acts execute admit capability_error is_infrastructure_tool metadata_error registry_error
    registered_error get_tool_capability one_of lookup tool_has_jenkins_tag
    inject_jenkins_metadata_tool_args is_jenkins_tool validate_tool_parameters check_mutation
    check_approval decision controlled_mutation need_approval build_verification_plan evaluate
    redact_tool_args perform start attached call_controlled after notices conclude prepare
    first_where create_or_reuse new_operation locked mark_executing record_execution write_row
    suppress find_row attach_operation_metadata had_error content_blocks insert lower strip split
    remove text allowed_namespaces insert_text sorted_set parse_manifest_targets
acts_once = refl

abbrev policy : MutationPolicyDecision
policy = record {
  allowed = true;
  rule = "admin_allowed_namespace";
  reason = "allowed";
  risk_level = "high";
  targets = [];
}

abbrev executing_row : MutationOperation
executing_row =
    record (fresh settings reader digest clock (λ t. t) "op-1" "run-1" "call-1" "helm_upgrade"
      call.args context policy done []) { execution_status = executing }

executing_found :
    find_row "op-1"
      (run settings reader digest [] (run settings reader digest [] (executing_row ∷ [])))
    ≡ some executing_row
unfolding find_row run new_operation
executing_found = refl

call_controlled-Settled_example :
    Settled settings reader digest call world "op-1"
      (world.respond call.args)
      (call_controlled settings reader digest call world "op-1" done call.args (executing_row ∷ []))
call_controlled-Settled_example =
    call_controlled-Settled settings reader digest call world "op-1" done call.args
      (executing_row ∷ []) executing_row executing_found refl

abbrev search_schema : Fields
search_schema =
    field "properties" (obj (field "query" (obj done) (field "_user_id" (obj done) done))) done

shows_query : shown_property "query" (strip_params "memory_search" search_schema) ≡ some (obj done)
unfolding lookup insert strip_properties is_engine_owned one_of
shows_query = refl
