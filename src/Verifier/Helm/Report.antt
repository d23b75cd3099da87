-- ===== src/Verifier/Helm/Report.antt =====
-- engine/src/api/services/mutation_verifier.py: what `_verify_helm` reports of a release and of its
-- workloads.
use Prim.Native.String.{◌++◌ as join_text}
use cloudops_agent.Prelude.{
  String, Bool, true, false, ◌&&◌, ◌||◌, List, [], ◌∷◌, ◌++◌, ◌==◌, one_of, if◌then◌else◌, filter,
}
use cloudops_agent.Text.{lower, contains}
use cloudops_agent.Json.{Value, bool, str, arr, obj, Fields, done, field, of_list}
use cloudops_agent.Json.Access.{get, or_else, fields_of}
use cloudops_agent.Mutation.Manifest.{Target, text_or}
use cloudops_agent.Policy.{is_nil}
use cloudops_agent.Journal.Table.{target_value}
use cloudops_agent.Verifier.Health.{Health}
use cloudops_agent.Verifier.Kubernetes.{
  result_text, terminal_read_error, detail_of, failed_item, target_item,
}

-- What the source's four results of `_verify_helm` share: the release and what its status says.
pub record Release : Type 0 where
  pub name : Value
  pub namespace : Value
  pub status : String
  pub marker_matches : Bool
  pub version : Value

abbrev pub release_marker : String → String
release_marker id = join_text "skyflo-operation:" id

-- str(info.get("status") or payload.get("status") or "").lower()
abbrev pub release_status : Fields → Fields → String
release_status info payload =
    lower (text_or (or_else (get "status" info) (get "status" payload)) "")

abbrev pub release_of : String → Value → Value → Fields → Fields → Release
release_of id name namespace payload info = record {
  name = name;
  namespace = namespace;
  status = release_status info payload;
  marker_matches = contains (text_or (get "description" info) "") (release_marker id);
  version = get "version" payload;
}

abbrev pub release_passed : Release → Bool
release_passed r = (r.status == "deployed") && r.marker_matches

abbrev pub is_terminal_release : Release → Bool
is_terminal_release r = one_of ("failed" ∷ "uninstalled" ∷ []) r.status

abbrev pub release_fields : Release → String → Fields → Fields
release_fields r scope rest = field "release" r.name (
    field "namespace" r.namespace (
      field "status" (str r.status) (
        field "marker_matches" (bool r.marker_matches)
          (field "verification_scope" (str scope) rest))))

abbrev pub release_reference : Release → Fields → Fields
release_reference r rest =
    field "external_reference"
      (obj
        (field "release" r.name (field "namespace" r.namespace (field "version" r.version rest))))
      done

abbrev pub not_deployed : Release → Bool × Bool × Fields
not_deployed r =
    (false, is_terminal_release r, release_fields r "release" (release_reference r done))

-- The two results without the workloads: a reason and a detail.
abbrev pub reason_and_detail : String → Value → Fields
reason_and_detail why detail = field "reason" (str why) (field "detail" detail done)

abbrev pub workload_kinds : List String
workload_kinds = "deployment" ∷ "statefulset" ∷ "daemonset" ∷ "pod" ∷ "job" ∷ []

abbrev pub is_workload : Target → Bool
is_workload t = one_of workload_kinds (lower t.kind)

pub record Workloads : Type 0 where
  pub evidence : List Value
  pub references : List Value
  pub all_passed : Bool
  pub terminal_failure : Bool

abbrev pub no_workloads : Workloads
no_workloads = record {
  evidence = [];
  references = [];
  all_passed = true;
  terminal_failure = false;
}

abbrev pub workload_fields : Target → Fields
workload_fields t = fields_of (target_value t)

abbrev pub workload_item : Target → Bool → Health → Value
workload_item t matches (healthy, terminal, detail) = obj (
    target_item (workload_fields t) (
      field "passed" (bool (matches && healthy))
        (field "desired_spec_matches" (bool matches) (field "detail" (str detail) done))))

abbrev pub workload_reference : Fields → Fields → Value
workload_reference resource metadata = obj (
    field "kind" (get "kind" resource) (
      field "namespace" (get "namespace" metadata) (
        field "name" (get "name" metadata) (
          field "uid" (get "uid" metadata) (field "generation" (get "generation" metadata) done)))))

abbrev pub see_health : Target → Bool → Fields → Fields → Health → Workloads → Workloads
see_health t matches resource metadata (healthy, terminal, detail) w = record {
  evidence = w.evidence ++ workload_item t matches (healthy, terminal, detail) ∷ [];
  references = w.references ++ workload_reference resource metadata ∷ [];
  all_passed = (w.all_passed && matches) && healthy;
  terminal_failure = w.terminal_failure || terminal;
}

abbrev pub see_refused : Target → Fields → Workloads → Workloads
see_refused t result w = record w {
  evidence = w.evidence ++ failed_item (workload_fields t) (detail_of (result_text result)) ∷ [];
  all_passed = false;
  terminal_failure = w.terminal_failure || terminal_read_error result;
}

abbrev pub see_invalid : Target → Workloads → Workloads
see_invalid t w = record w {
  evidence =
      w.evidence ++ failed_item (workload_fields t) (str "invalid Kubernetes JSON response") ∷ [];
  all_passed = false;
}

abbrev pub workload_args : Value → Target → Fields
workload_args namespace t = field "resource_type" (str t.kind) (
    field "name" (str t.name)
      (field "namespace" (or_else (str t.namespace) namespace) (field "output" (str "json") done)))

abbrev pub scope_of : List Target → String
scope_of workloads =
    if is_nil workloads then "release_no_workloads_declared" else "release_and_workloads"

abbrev pub helm_verdict : Release → List Target → Workloads → Bool × Bool × Fields
helm_verdict r workloads w = (
  release_passed r && (is_nil workloads || w.all_passed),
  is_terminal_release r || w.terminal_failure,
  release_fields r (scope_of workloads) (
      field "workloads" (arr (of_list w.evidence))
        (release_reference r (field "workloads" (arr (of_list w.references)) done))),
)

abbrev pub workload_targets : List Target → List Target
workload_targets targets = filter is_workload targets

abbrev pub release_args : Value → Value → Fields → Fields
release_args name namespace rest = field "release_name" name (field "namespace" namespace rest)
