-- ===== src/Capability/Laws.antt =====
-- engine/src/api/services/tool_capabilities.py: the registry fails closed.
use cloudops_agent.Prelude.{
  String, Bool, true, false, Option, none, some, ◌≡◌, refl, ap, arith, one_of, all, List, [], ◌∷◌,
  inl, inr, Bool-cases, ◌⊎◌, ◌↔◌, eq_iff, ◌==◌,
}
use cloudops_agent.Capability.{
  mutation, ToolCapability, ToolMetadata, get_tool_capability, capability_error,
  is_infrastructure_tool, read_only_hint, is_read, unverified_mutations, kubernetes_mutations,
  helm_mutations, read_only_tools, metadata_error,
}

-- What a tool that passes the check has: an enabled entry whose effect its annotation confirms.
pub record IsAdmitted (name : String) (metadata : Option ToolMetadata) : Type 0 where
  pub tool : ToolMetadata
  pub present : metadata ≡ some tool
  pub capability : ToolCapability
  pub registered : get_tool_capability name ≡ some capability
  pub enabled : capability.enabled ≡ true
  pub agrees : is_read capability.effect ≡ read_only_hint metadata

metadata_error-IsAdmitted :
    (name : String) (metadata : Option ToolMetadata) (found : Option ToolCapability)
    → get_tool_capability name ≡ found
    → metadata_error name metadata ≡ none
    → IsAdmitted name metadata
unfolding metadata_error
metadata_error-IsAdmitted name none found g e = cc
metadata_error-IsAdmitted name (some m) none g e = ground arith
metadata_error-IsAdmitted name (some m) (some c) g e = record {
  tool = m;
  present = refl;
  capability = c;
  registered = g;
  enabled = ground arith;
  agrees = ground arith;
}

IsAdmitted-metadata_error :
    (name : String) (metadata : Option ToolMetadata)
    → IsAdmitted name metadata
    → metadata_error name metadata ≡ none
unfolding metadata_error
IsAdmitted-metadata_error name none h = cc h.present
IsAdmitted-metadata_error name (some m) h = ground (arith, h.registered, h.enabled, h.agrees)

-- A tool passes the capability check exactly when it is no infrastructure tool, or its metadata is
-- at hand and its registry entry is enabled with the effect that the annotation states.
pub capability_error_iff :
    (name : String) (metadata : Option ToolMetadata)
    → (capability_error name metadata ≡ none)
      ↔ ((is_infrastructure_tool name ≡ false) ⊎ IsAdmitted name metadata)
unfolding capability_error
capability_error_iff name metadata = elim (Bool-cases (is_infrastructure_tool name)) [
  | inl infra ↦ (
    λ e. inr (metadata_error-IsAdmitted name metadata _ refl (rw infra at e)),
    λ h. elim h [
      | inl outside ↦ cc
      | inr admitted ↦ rw infra (IsAdmitted-metadata_error name metadata admitted)
    ],
  )
  | inr outside ↦ (λ e. inl outside, λ h. rw outside)
]

pub one_of-all :
    (p : String → Bool) (names : List String) (s : String)
    → all p names ≡ true
    → one_of names s ≡ true
    → p s ≡ true
unfolding one_of
one_of-all p [] s h m = cc
one_of-all p (x ∷ names) s h m = elim (Bool-cases (s == x)) [
  | inl e ↦ ground (arith, ap p ((eq_iff s x).0 e))
  | inr n ↦ one_of-all p names s (ground arith) (rw n at m)
]

all_infrastructure :
    (all is_infrastructure_tool unverified_mutations ≡ true)
    × (all is_infrastructure_tool kubernetes_mutations ≡ true)
    × (all is_infrastructure_tool helm_mutations ≡ true)
    × (all is_infrastructure_tool read_only_tools ≡ true)
unfolding is_infrastructure_tool
all_infrastructure = (refl, refl, refl, refl)

registered_cases :
    (name : String) (c : ToolCapability)
    → get_tool_capability name ≡ some c
    → (one_of unverified_mutations name ≡ true)
      ⊎ (one_of kubernetes_mutations name ≡ true)
      ⊎ (one_of helm_mutations name ≡ true)
      ⊎ (one_of read_only_tools name ≡ true)
unfolding get_tool_capability
registered_cases name c g = ground arith

-- Whatever the registry knows is an infrastructure tool, so no registered tool escapes the
-- capability check by its name.
pub registered-infrastructure :
    (name : String) (c : ToolCapability)
    → get_tool_capability name ≡ some c
    → is_infrastructure_tool name ≡ true
registered-infrastructure name c g = elim (registered_cases name c g) [
  | inl u ↦ one_of-all is_infrastructure_tool _ name all_infrastructure.0 u
  | inr (inl k) ↦ one_of-all is_infrastructure_tool _ name all_infrastructure.1 k
  | inr (inr (inl h)) ↦ one_of-all is_infrastructure_tool _ name all_infrastructure.2 h
  | inr (inr (inr r)) ↦ one_of-all is_infrastructure_tool _ name all_infrastructure.3 r
]

-- The registry enables a mutation only with a verification adapter: an enabled tool that changes
-- infrastructure is one of the five controlled tools, and it has the Kubernetes adapter exactly for
-- `k8s_apply` and the Helm adapter for the others.
pub enabled_mutation-controlled :
    (name : String) (c : ToolCapability)
    → get_tool_capability name ≡ some c
    → c.effect ≡ mutation
    → c.enabled ≡ true
    → (c.controlled ≡ true)
      × ((one_of kubernetes_mutations name ≡ true)
            × (c.verification_adapter ≡ some "kubernetes_apply")
          ⊎ (one_of helm_mutations name ≡ true) × (c.verification_adapter ≡ some "helm_release"))
unfolding get_tool_capability
enabled_mutation-controlled name c g m e = ground arith
