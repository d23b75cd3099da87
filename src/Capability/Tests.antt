-- ===== src/Capability/Tests.antt =====
-- The registry of tools at concrete tools.
use cloudops_agent.Prelude.{true, false, none, some, [], ◌≡◌, refl, inr, one_of}
use cloudops_agent.Json.{bool, done, field}
use cloudops_agent.Json.Access.{lookup}
use cloudops_agent.Capability.{
  is_infrastructure_tool, capability_error, get_tool_capability, ToolMetadata, ToolCapability,
  mutation,
}
use cloudops_agent.Capability.Laws.{IsAdmitted, capability_error_iff}

abbrev apply_metadata : ToolMetadata
apply_metadata = record {
  title = none;
  annotations = some (field "readOnlyHint" (bool false) done);
  required = [];
}

abbrev apply_capability : ToolCapability
apply_capability = record {
  effect = mutation;
  enabled = true;
  controlled = true;
  verification_adapter = some "kubernetes_apply";
}

apply_found : get_tool_capability "k8s_apply" ≡ some apply_capability
unfolding get_tool_capability one_of
apply_found = refl

argo_is_infrastructure : is_infrastructure_tool "argo_promote" ≡ true
unfolding is_infrastructure_tool
argo_is_infrastructure = refl

apply-IsAdmitted : IsAdmitted "k8s_apply" (some apply_metadata)
unfolding get_tool_capability one_of lookup
apply-IsAdmitted = record {
  tool = apply_metadata;
  present = refl;
  capability = apply_capability;
  registered = refl;
  enabled = refl;
  agrees = refl;
}

capability_error_iff_example : capability_error "k8s_apply" (some apply_metadata) ≡ none
capability_error_iff_example =
    (capability_error_iff "k8s_apply" (some apply_metadata)).1 (inr apply-IsAdmitted)
