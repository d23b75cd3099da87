-- ===== src/Verifier/Plan.antt =====
-- engine/src/api/services/mutation_verifier.py: `build_verification_plan`, and that the plan of a tool
-- has the adapter that the registry promises.
use cloudops_agent.Prelude.{
  String, true, false, not, Option, none, some, List, [], ◌∷◌, ◌≡◌, refl, inl, inr, arith, map,
  one_of, ◌==◌, ◌>>=◌, if◌then◌else◌, some_inj,
}
use cloudops_agent.Json.{bool, str, arr, Fields, done, field, of_list}
use cloudops_agent.Json.Access.{get, lookup, truthy, or_else}
use cloudops_agent.Mutation.Manifest.{Yaml, Target, text_or, parse_manifest_targets}
use cloudops_agent.Capability.{
  ToolCapability, mutation, get_tool_capability, kubernetes_mutations, helm_mutations,
}
use cloudops_agent.Capability.Laws.{enabled_mutation-controlled, one_of-all}
use cloudops_agent.Policy.{is_nil}
use cloudops_agent.Journal.Table.{target_value}

abbrev pub helm_tools : List String
helm_tools = "helm_install" ∷ "helm_install_with_values" ∷ "helm_upgrade" ∷ "helm_rollback" ∷ []

abbrev pub kubernetes_plan : String → List Target → Fields
kubernetes_plan operation_id targets = field "supported" (bool (not (is_nil targets))) (
    field "adapter" (str "kubernetes_apply") (
      field "operation_id" (str operation_id)
        (field "targets" (arr (of_list (map target_value targets))) done)))

abbrev pub helm_plan : String → Fields → Fields
helm_plan operation_id args = field "supported" (bool (truthy (get "release_name" args))) (
    field "adapter" (str "helm_release") (
      field "operation_id" (str operation_id) (
        field "release_name" (get "release_name" args)
          (field "namespace" (or_else (get "namespace" args) (str "default")) done))))

abbrev pub unsupported_plan : String → Fields
unsupported_plan operation_id =
    field "supported" (bool false)
      (field "adapter" (str "unsupported") (field "operation_id" (str operation_id) done))

-- `none` where the manifest cannot be parsed, and the call raises
unfoldable pub build_verification_plan : Yaml → String → Fields → String → Option Fields
build_verification_plan yaml tool_name args operation_id =
    if tool_name == "k8s_apply"
    then (do
      targets ←
          parse_manifest_targets yaml (text_or (get "content" args) "")
            (text_or (get "namespace" args) "default")
      some (kubernetes_plan operation_id targets))
    else some (
        if one_of helm_tools tool_name
        then helm_plan operation_id args
        else unsupported_plan operation_id)

kubernetes_plan-adapter :
    (o : Option (List Target)) (operation_id : String) (plan : Fields)
    → (o >>= λ targets. some (kubernetes_plan operation_id targets)) ≡ some plan
    → get "adapter" plan ≡ str "kubernetes_apply"
unfolding lookup
kubernetes_plan-adapter none operation_id plan h = cc
kubernetes_plan-adapter (some targets) operation_id plan h = cc (some_inj h)

helm_plan-adapter :
    (operation_id : String) (args plan : Fields)
    → some (helm_plan operation_id args) ≡ some plan
    → get "adapter" plan ≡ str "helm_release"
unfolding lookup
helm_plan-adapter operation_id args plan h = cc (some_inj h)

kubernetes_applies :
    (name : String) → one_of kubernetes_mutations name ≡ true → (name == "k8s_apply") ≡ true
kubernetes_applies name h = one_of-all (λ n. n == "k8s_apply") kubernetes_mutations name refl h

helm_others : (name : String) → one_of helm_mutations name ≡ true → (name == "k8s_apply") ≡ false
helm_others name h =
    let differs = one_of-all (λ n. not (n == "k8s_apply")) helm_mutations name refl h in
    ground arith

-- The plan of every mutation that the registry enables names the verification adapter that the
-- registry has for it, whatever the arguments, so the verifier does not meet an unsupported plan of an
-- enabled tool.
pub build_verification_plan-adapter :
    (yaml : Yaml) (name : String) (c : ToolCapability) (args : Fields) (operation_id : String)
    (plan : Fields)
    → get_tool_capability name ≡ some c
    → c.effect ≡ mutation
    → c.enabled ≡ true
    → build_verification_plan yaml name args operation_id ≡ some plan
    → (adapter : String) × (c.verification_adapter ≡ some adapter)
      × (get "adapter" plan ≡ str adapter)
unfolding build_verification_plan
build_verification_plan-adapter yaml name c args operation_id plan known effect enabled h =
    elim (enabled_mutation-controlled name c known effect enabled).1 [
      | inl (kubernetes, adapter) ↦
          let applies = kubernetes_applies name kubernetes in
          (
            "kubernetes_apply",
            adapter,
            kubernetes_plan-adapter _ operation_id plan (rw applies at h),
          )
      | inr (helm, adapter) ↦
          let others = helm_others name helm in
          (
            "helm_release",
            adapter,
            helm_plan-adapter operation_id args plan (rw (others, helm) at h),
          )
    ]
