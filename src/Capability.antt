-- ===== src/Capability.antt =====
-- engine/src/api/services/tool_capabilities.py: the runtime registry of infrastructure tools. A tool's
-- metadata is what the MCP client's typed models give: its annotations are a dict or absent.
pub mod Laws
mod Tests
use cloudops_agent.Prelude.{
  String, Bool, true, false, not, ◌||◌, Option, none, some, List, [], ◌∷◌, one_of, starts_with,
  ◌==◌, if◌then◌else◌, any,
}
use cloudops_agent.Json.{Fields, done}
use cloudops_agent.Json.Access.{get, truthy}
use Prim.Native.String.{◌++◌}

pub data ToolEffect : Type 0 where
  read mutation : ToolEffect

pub record ToolCapability : Type 0 where
  pub effect : ToolEffect
  pub enabled : Bool
  pub controlled : Bool
  pub verification_adapter : Option String

abbrev pub is_read : ToolEffect → Bool
is_read read = true
is_read mutation = false

abbrev pub requires_approval : ToolCapability → Bool
requires_approval c = not (is_read c.effect)

abbrev read_capability : ToolCapability
read_capability = record {
  effect = read;
  enabled = true;
  controlled = false;
  verification_adapter = none;
}

abbrev controlled_capability : String → ToolCapability
controlled_capability adapter = record {
  effect = mutation;
  enabled = true;
  controlled = true;
  verification_adapter = some adapter;
}

abbrev disabled_mutation : ToolCapability
disabled_mutation = record {
  effect = mutation;
  enabled = false;
  controlled = false;
  verification_adapter = none;
}

abbrev pub read_only_tools : List String
read_only_tools =
    "k8s_logs" ∷ "k8s_get" ∷ "k8s_describe" ∷ "wait_for_x_seconds" ∷ "k8s_rollout_status"
    ∷ "k8s_rollout_history" ∷ "k8s_cluster_info" ∷ "k8s_top_pods" ∷ "k8s_top_nodes"
    ∷ "helm_list_releases" ∷ "helm_status" ∷ "helm_history" ∷ "helm_get_values"
    ∷ "helm_get_manifest" ∷ "helm_show_values" ∷ "helm_search_repo" ∷ "helm_template"
    ∷ "argo_list_rollouts" ∷ "argo_status" ∷ "argo_history" ∷ "argo_describe"
    ∷ "argo_list_experiments" ∷ "argo_list_analysisruns" ∷ "jenkins_get_job" ∷ "jenkins_get_jobs"
    ∷ "jenkins_get_build" ∷ "jenkins_get_last_builds" ∷ "jenkins_get_build_log"
    ∷ "jenkins_get_job_scm" ∷ "jenkins_get_build_scm" ∷ "jenkins_get_build_changesets"
    ∷ "jenkins_whoami" ∷ "jenkins_get_job_parameters" ∷ []

-- The keys of `CONTROLLED_MUTATIONS` by the adapter that each has.
abbrev pub kubernetes_mutations : List String
kubernetes_mutations = "k8s_apply" ∷ []

abbrev pub helm_mutations : List String
helm_mutations = "helm_install" ∷ "helm_install_with_values" ∷ "helm_upgrade" ∷ "helm_rollback" ∷ []

abbrev pub unverified_mutations : List String
unverified_mutations =
    "k8s_patch" ∷ "k8s_set_image" ∷ "k8s_rollout_restart" ∷ "k8s_scale" ∷ "k8s_delete"
    ∷ "k8s_rollout_undo" ∷ "k8s_cordon" ∷ "k8s_uncordon" ∷ "k8s_drain" ∷ "k8s_run_pod" ∷ "k8s_exec"
    ∷ "k8s_port_forward" ∷ "helm_repo_add" ∷ "helm_repo_update" ∷ "helm_repo_remove"
    ∷ "helm_uninstall" ∷ "argo_promote" ∷ "argo_pause_rollout" ∷ "argo_resume_rollout"
    ∷ "argo_abort_rollout" ∷ "argo_set_image" ∷ "argo_rollout_restart" ∷ "argo_undo"
    ∷ "jenkins_trigger_build" ∷ "jenkins_update_build" ∷ "jenkins_stop_build" ∷ []

-- `TOOL_CAPABILITIES.get`: in a dict display a later entry replaces an earlier one, so the last
-- group is looked up first.
unfoldable pub get_tool_capability : String → Option ToolCapability
get_tool_capability name =
    if one_of unverified_mutations name
    then some disabled_mutation
    else if one_of kubernetes_mutations name
    then some (controlled_capability "kubernetes_apply")
    else if one_of helm_mutations name
    then some (controlled_capability "helm_release")
    else if one_of read_only_tools name
    then some read_capability
    else none

abbrev pub infrastructure_prefixes : List String
infrastructure_prefixes = "k8s_" ∷ "helm_" ∷ "argo_" ∷ "jenkins_" ∷ []

unfoldable pub is_infrastructure_tool : String → Bool
is_infrastructure_tool name =
    any (starts_with name) infrastructure_prefixes || name == "wait_for_x_seconds"

-- A tool's metadata, as far as the program reads it.
pub record ToolMetadata : Type 0 where
  pub title : Option String
  pub annotations : Option Fields
  pub required : List String

-- (metadata or {}).get("annotations") or {}
abbrev pub annotations_of : Option ToolMetadata → Fields
annotations_of none = done
annotations_of (some m) = elim m.annotations [ none ↦ done | some a ↦ a ]

abbrev pub read_only_hint : Option ToolMetadata → Bool
read_only_hint metadata = truthy (get "readOnlyHint" (annotations_of metadata))

-- `annotated_read_only != expected_read_only`
abbrev pub differs : Bool → Bool → Bool
differs true b = not b
differs false b = b

-- The message of the first check that fails.
unfoldable pub registered_error : String → ToolCapability → Option ToolMetadata → Option String
registered_error name c metadata =
    if not c.enabled
    then some (
        "Infrastructure mutation '" ++ name
        ++ "' is disabled because no deterministic verification adapter is registered.")
    else if differs (read_only_hint metadata) (is_read c.effect)
    then some (
        "Infrastructure tool '" ++ name
        ++ "' metadata conflicts with the runtime capability registry.")
    else none

unfoldable pub registry_error : String → Option ToolCapability → Option ToolMetadata → Option String
unfolding registered_error
registry_error name none metadata =
    some ("Infrastructure tool '" ++ name ++ "' is absent from the runtime capability registry.")
registry_error name (some c) metadata = registered_error name c metadata

unfoldable pub metadata_error : String → Option ToolMetadata → Option String
unfolding registry_error
metadata_error name none =
    some ("Infrastructure tool '" ++ name ++ "' metadata is unavailable; execution fails closed.")
metadata_error name (some m) = registry_error name (get_tool_capability name) (some m)

unfoldable pub capability_error : String → Option ToolMetadata → Option String
unfolding metadata_error
capability_error name metadata =
    if is_infrastructure_tool name then metadata_error name metadata else none

unfoldable pub is_effectively_read_only : String → Option ToolMetadata → Bool
is_effectively_read_only name metadata = elim (get_tool_capability name) [
  | none ↦ read_only_hint metadata
  | some c ↦ is_read c.effect
]
