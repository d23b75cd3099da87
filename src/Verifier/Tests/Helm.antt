-- ===== src/Verifier/Tests/Helm.antt =====
-- The adapters at a release with one workload.
use cloudops_agent.Prelude.{
  ℕ, String, Bool, true, false, Option, none, some, [], ◌∷◌, ◌≡◌, refl, ◌==◌, if◌then◌else◌, one_of,
}
use cloudops_agent.Text.{lower, join, strip}
use cloudops_agent.Json.{Value, str, obj, arr, Fields, done, field, of_list}
use cloudops_agent.Json.Access.{lookup}
use cloudops_agent.Json.Print.{text}
use cloudops_agent.Mutation.Manifest.{
  Yaml, parse_manifest_targets, documents, targets_of, target_of, add_target,
}
use cloudops_agent.Mutation.Operation.{MutationOperation, VerificationStatus, passed}
use cloudops_agent.Verifier.Match.{
  subset_matches, fields_match, named_match, items_match, all_named, by_name,
}
use cloudops_agent.Verifier.Health.{workload_health, deployment_health, dict_items}
use cloudops_agent.Verifier.Kubernetes.{read_of, result_text, block_texts}
use cloudops_agent.Verifier.Helm.{see_found, see_workloads, verify_manifest, verify_helm}
use cloudops_agent.Verifier.Loop.{passes}
use cloudops_agent.Verifier.Adapters.{operation_pass, IsShown, passes-IsShown}
use cloudops_agent.Verifier.Tests.{row, web, web_spec, reader, time}

abbrev release_plan : Fields
release_plan =
    field "adapter" (str "helm_release")
      (field "release_name" (str "shop") (field "namespace" (str "default") done))

abbrev released : MutationOperation
released = record row { verification_plan = obj release_plan }

abbrev manifest : Fields
manifest =
    field "kind" (str "Deployment")
      (field "metadata" (obj (field "name" (str "web") done)) (field "spec" (obj web_spec) done))

abbrev charts : Yaml
charts = record reader { load_all = λ s. some (obj manifest ∷ []) }

abbrev status_payload : Fields
status_payload =
    field "info"
      (obj (
        field "status" (str "deployed")
          (field "description" (str "Upgrade skyflo-operation:op-1") done)))
      done

abbrev texts : String → Fields
texts s =
    field "content"
      (arr (of_list (obj (field "type" (str "text") (field "text" (str s) done)) ∷ []))) done

abbrev served : ℕ → String → Fields → Fields
served n tool args = texts tool

abbrev loaded : String → Option Value
loaded s =
    if s == "helm_status"
    then some (obj status_payload)
    else if s == "k8s_get"
    then some (obj web)
    else none

abbrev error_name : String → String
error_name s = "YAMLError"

abbrev result_of : Option (Bool × Bool × Fields) → Fields
result_of none = done
result_of (some (p, t, d)) = d

abbrev outcome : Option (Bool × Bool × Fields)
outcome = verify_helm charts error_name loaded served released

release_verified : outcome ≡ some (true, false, result_of outcome)
unfolding verify_helm read_of see_found see_workloads verify_manifest parse_manifest_targets
    documents targets_of target_of add_target result_text block_texts workload_health
    deployment_health lookup dict_items lower strip join text one_of subset_matches fields_match
    named_match items_match all_named by_name
release_verified = refl

abbrev shown_passes : Option (VerificationStatus × Fields)
shown_passes =
    passes 90000000
      (operation_pass charts error_name loaded released (λ n. "RuntimeError") (λ n. served)) time 10
      0

abbrev evidence_of : Option (VerificationStatus × Fields) → Fields
evidence_of none = done
evidence_of (some (s, d)) = d

release_concluded : shown_passes ≡ some (passed, evidence_of shown_passes)
unfolding passes operation_pass verify_helm read_of see_found see_workloads verify_manifest
    parse_manifest_targets documents targets_of target_of add_target result_text block_texts
    workload_health deployment_health lookup dict_items lower strip join text one_of subset_matches
    fields_match named_match items_match all_named by_name
release_concluded = refl

passes-IsShown_example :
    (n : ℕ) × IsShown charts error_name loaded released (λ k. "RuntimeError") (λ k. served) n
passes-IsShown_example =
    passes-IsShown charts error_name loaded released (λ k. "RuntimeError") (λ k. served) 90000000
      time 10 (evidence_of shown_passes) release_concluded
