-- ===== src/Verifier/Helm.antt =====
-- engine/src/api/services/mutation_verifier.py: `_verify_helm`. What the n-th call of a tool's server
-- gives for a tool and its arguments is a parameter, and so is `json.loads`, `none` where the text is no
-- JSON. `none` of a definition is an exception that leaves `_verify_helm`.
pub mod Report
pub mod Running
pub mod Sound
use Prim.Native.String.{◌++◌ as join_text}
use cloudops_agent.Prelude.{
  ℕ, zero, suc, ◌+◌, String, Bool, true, false, not, ◌&&◌, ◌||◌, Option, none, some, List, [], ◌∷◌,
  ◌++◌, ◌==◌, ◌>>=◌, one_of, if◌then◌else◌, filter,
}
use cloudops_agent.Text.{lower, contains, first_chars}
use cloudops_agent.Json.{Value, bool, str, arr, obj, Fields, done, field, of_list}
use cloudops_agent.Json.Access.{get, lookup, truthy, or_else, fields_of}
use cloudops_agent.Json.Print.{text}
use cloudops_agent.Mutation.Manifest.{Yaml, Target, text_or, parse_manifest_targets}
use cloudops_agent.Mutation.Operation.{MutationOperation}
use cloudops_agent.Policy.{is_nil}
use cloudops_agent.Journal.Table.{target_value}
use cloudops_agent.Verifier.Health.{dict_of, dict_item, workload_health, Health}
use cloudops_agent.Verifier.Kubernetes.{
  read_of, Read, refused, invalid, found, result_text, terminal_read_error, detail_of, failed_item,
  target_item, desired_matches,
}
unfoldable pub use Report.*

module _ (yaml : Yaml) (exception_name : String → String) (loads : String → Option Value)
    (call : ℕ → String → Fields → Fields) (op : MutationOperation) where
  unfoldable pub see_found : Target → Value → Workloads → Option Workloads
  see_found t v w = do
    resource ← dict_item v
    health ← workload_health resource
    metadata ← dict_of (get "metadata" resource)
    some (see_health t (desired_matches op (workload_fields t) resource) resource metadata health w)

  abbrev pub see_one : Target → Read → Workloads → Option Workloads
  see_one t (refused result) w = some (see_refused t result w)
  see_one t invalid w = some (see_invalid t w)
  see_one t (found v) w = see_found t v w

  -- What the n-th call reads of a workload.
  abbrev pub read_workload : Value → ℕ → Target → Read
  read_workload namespace n t = read_of loads (call n "k8s_get" (workload_args namespace t))

  unfoldable pub see_workloads : Value → ℕ → List Target → Workloads → Option Workloads
  see_workloads namespace n [] w = some w
  see_workloads namespace n (t ∷ ts) w = do
    w' ← see_one t (read_workload namespace n t) w
    see_workloads namespace (suc n) ts w'

  abbrev pub verify_targets :
      Release → String → Option (List Target) → Option (Bool × Bool × Fields)
  verify_targets r manifest none = some (
    false,
    false,
    release_fields r "release_and_workloads"
        (reason_and_detail "helm_manifest_invalid" (str (exception_name manifest))),
  )
  verify_targets r manifest (some targets) = do
    w ← see_workloads r.namespace 2 (workload_targets targets) no_workloads
    some (helm_verdict r (workload_targets targets) w)

  -- The release's manifest, which the second call reads.
  abbrev pub manifest_result : Release → Fields
  manifest_result r = call 1 "helm_get_manifest" (release_args r.name r.namespace done)

  abbrev pub targets_of_release : Release → Option (List Target)
  targets_of_release r =
      parse_manifest_targets yaml (result_text (manifest_result r)) (text r.namespace)

  unfoldable pub verify_manifest : Release → Option (Bool × Bool × Fields)
  verify_manifest r =
      if truthy (get "isError" (manifest_result r))
      then some (
        false,
        terminal_read_error (manifest_result r),
        release_fields r "release_and_workloads" (
            reason_and_detail "helm_manifest_unavailable"
              (detail_of (result_text (manifest_result r)))),
      )
      else verify_targets r (result_text (manifest_result r)) (targets_of_release r)

  abbrev pub verify_release : Release → Option (Bool × Bool × Fields)
  verify_release r = if release_passed r then verify_manifest r else some (not_deployed r)

  abbrev pub status_result : Value → Value → Fields
  status_result name namespace =
      call 0 "helm_status" (release_args name namespace (field "output" (str "json") done))

  -- The status of the release, by what the first call reads.
  abbrev pub verify_status : Value → Value → Fields → Read → Option (Bool × Bool × Fields)
  verify_status name namespace result (refused r) = some (
    false,
    terminal_read_error result,
    reason_and_detail "helm_status_error" (detail_of (result_text result)),
  )
  verify_status name namespace result invalid =
      some (
        false,
        false,
        reason_and_detail "invalid_helm_status_json" (detail_of (result_text result)),
      )
  verify_status name namespace result (found v) = do
    payload ← dict_item v
    info ← dict_of (get "info" payload)
    verify_release (release_of op.id name namespace payload info)

  unfoldable pub verify_helm : Option (Bool × Bool × Fields)
  verify_helm = do
    plan ← dict_item op.verification_plan
    name ← lookup "release_name" plan
    namespace ← lookup "namespace" plan
    verify_status name namespace (status_result name namespace)
        (read_of loads (status_result name namespace))
