-- ===== src/Verifier/Kubernetes.antt =====
-- engine/src/api/services/mutation_verifier.py: `_verify_kubernetes`. What the n-th call of a tool's
-- server gives for a tool and its arguments is a parameter, and so is `json.loads`, `none` where the text
-- is no JSON. `none` of a definition is an exception that leaves `_verify_kubernetes`.
pub mod Sound
use cloudops_agent.Prelude.{
  ℕ, zero, suc, ◌+◌, String, Bool, true, false, not, ◌&&◌, ◌||◌, Option, none, some, List, [], ◌∷◌,
  ◌++◌, ltb, ◌==◌, ◌>>=◌, one_of, if◌then◌else◌, map,
}
use cloudops_agent.Text.{lower, strip, first_chars, join, contains, is_empty}
use cloudops_agent.Json.{
  ℤ, pos, Value, null, bool, num, str, arr, obj, Items, nil, cons, Fields, done, field, items,
  of_list,
}
use cloudops_agent.Json.Access.{get, lookup, truthy, or_else, is_obj, fields_of}
use cloudops_agent.Json.Print.{text}
use cloudops_agent.Mutation.Manifest.{text_or, operation_id_key, desired_state_key}
use cloudops_agent.Mutation.Operation.{MutationOperation}
use cloudops_agent.Policy.{is_nil}
use cloudops_agent.Journal.Table.{value_of}
use cloudops_agent.Verifier.Match.{scalar_eq, subset_matches}
use cloudops_agent.Verifier.Health.{
  dict_of, dict_item, is_text, present_or, workload_health, Health,
}

-- The texts of a tool result's blocks.
abbrev pub block_text : Value → List String → List String
block_text (obj block) rest =
    if is_text "text" (get "type" block) then text_or (get "text" block) "" ∷ rest else rest
block_text _ rest = rest

unfoldable pub block_texts : List Value → List String
block_texts [] = []
block_texts (v ∷ vs) = block_text v (block_texts vs)

abbrev pub list_items : Value → List Value
list_items (arr xs) = items xs
list_items _ = []

unfoldable pub result_text : Fields → String
result_text result = strip (join "\n" (block_texts (list_items (get "content" result))))

-- reliability, or the first of a list of them
abbrev pub reliability : Value → Value
reliability (arr nil) = obj done
reliability (arr (cons v xs)) = v
reliability v = or_else v (obj done)

unfoldable pub read_error_type : Fields → Value
read_error_type result = get "error_type" (fields_of (reliability (get "reliability" result)))

abbrev pub terminal_types : List String
terminal_types = "authorization" ∷ "invalid_input" ∷ "executable_not_found" ∷ []

abbrev pub is_terminal_type : Value → Bool
is_terminal_type (str s) = one_of terminal_types s
is_terminal_type _ = false

abbrev pub terminal_read_error : Fields → Bool
terminal_read_error result = is_terminal_type (read_error_type result)

pub data Read : Type 0 where
  refused : Fields → Read
  invalid : Read
  found : Value → Read

abbrev pub parsed : Option Value → Read
parsed none = invalid
parsed (some v) = found v

-- What a result of `call_tool` reads as.
unfoldable pub read_of : (String → Option Value) → Fields → Read
read_of loads result =
    if truthy (get "isError" result) then refused result else parsed (loads (result_text result))

-- The items of a `for` loop over d.get("targets", []): a text or a dict with something in it gives texts,
-- whose `["kind"]` raises.
abbrev pub iterated : Option Value → Option (List Value)
iterated none = some []
iterated (some (arr xs)) = some (items xs)
iterated (some (obj done)) = some []
iterated (some (str s)) = if is_empty s then some [] else none
iterated (some _) = none

-- The arguments of `k8s_get`; `target["kind"]` and `target["name"]` raise where the key is missing.
unfoldable pub target_args : Fields → Option Fields
target_args target = do
  kind ← lookup "kind" target
  name ← lookup "name" target
  some (
      field "resource_type" kind (
        field "name" name (
          field "namespace" (or_else (get "namespace" target) (str "default"))
            (field "output" (str "json") done))))

pub record Progress : Type 0 where
  pub evidence : List Value
  pub references : List Value
  pub all_passed : Bool
  pub terminal_failure : Bool
  pub committed_count : ℕ
  pub missing_count : ℕ

abbrev pub start : Progress
start = record {
  evidence = [];
  references = [];
  all_passed = true;
  terminal_failure = false;
  committed_count = 0;
  missing_count = 0;
}

-- {k: target.get(k) for k in (…)}
abbrev pub target_item : Fields → Fields → Fields
target_item target rest =
    field "target"
      (obj (
        field "kind" (get "kind" target)
          (field "name" (get "name" target) (field "namespace" (get "namespace" target) done))))
      rest

-- text[:500]
abbrev pub detail_of : String → Value
detail_of s = str (first_chars 500 s)

abbrev pub counted_if : Bool → ℕ → ℕ
counted_if true n = suc n
counted_if false n = n

abbrev pub failed_item : Fields → Value → Value
failed_item target detail =
    obj (target_item target (field "passed" (bool false) (field "detail" detail done)))

abbrev pub is_missing : Fields → Bool
is_missing result =
    is_text "not_found" (read_error_type result)
    || contains (lower (result_text result)) "not found"

abbrev pub observe_refused : Fields → Fields → Progress → Progress
observe_refused target result p = record p {
  evidence = p.evidence ++ failed_item target (detail_of (result_text result)) ∷ [];
  all_passed = false;
  missing_count = counted_if (is_missing result) p.missing_count;
  terminal_failure = p.terminal_failure || terminal_read_error result;
}

abbrev pub observe_invalid : Fields → Progress → Progress
observe_invalid target p = record p {
  evidence = p.evidence ++ failed_item target (str "invalid Kubernetes JSON response") ∷ [];
  all_passed = false;
}

abbrev pub reference_of : Fields → Fields → Value
reference_of resource metadata = obj (
    field "api_version" (get "apiVersion" resource) (
      field "kind" (get "kind" resource) (
        field "namespace" (get "namespace" metadata) (
          field "name" (get "name" metadata) (
            field "uid" (get "uid" metadata) (
              field "resource_version" (get "resourceVersion" metadata)
                (field "generation" (get "generation" metadata) done)))))))

module _ (op : MutationOperation) where
  abbrev pub operation_marker_matches : Fields → Bool
  operation_marker_matches annotations = is_text op.id (get operation_id_key annotations)

  abbrev pub desired_marker_matches : Fields → Bool
  desired_marker_matches annotations =
      scalar_eq (get desired_state_key annotations) (value_of op.desired_state_hmac)

  abbrev pub conflicting_marker : Fields → Bool
  conflicting_marker annotations =
      truthy (get operation_id_key annotations) && not (operation_marker_matches annotations)

  abbrev pub desired_matches : Fields → Fields → Bool
  desired_matches target resource =
      subset_matches (present_or (lookup "desired_spec" target) (obj done))
        (present_or (lookup "spec" resource) (obj done))

  abbrev pub committed : Fields → Fields → Fields → Bool
  committed target resource annotations =
      (operation_marker_matches annotations && desired_marker_matches annotations)
      && desired_matches target resource

  abbrev pub found_item : Fields → Fields → Fields → Health → Value
  found_item target resource annotations (healthy, terminal, detail) = obj (
      target_item target (
        field "passed" (bool (committed target resource annotations && healthy)) (
          field "marker_matches"
            (bool (operation_marker_matches annotations && desired_marker_matches annotations))
            (field "operation_marker_matches" (bool (operation_marker_matches annotations)) (
              field "desired_marker_matches" (bool (desired_marker_matches annotations)) (
                field "desired_spec_matches" (bool (desired_matches target resource))
                  (field "detail" (str detail) done)))))))

  abbrev pub observe_health : Fields → Fields → Fields → Fields → Health → Progress → Progress
  observe_health target resource metadata annotations (healthy, terminal, detail) p = record p {
    evidence =
        p.evidence ++ found_item target resource annotations (healthy, terminal, detail) ∷ [];
    references = p.references ++ reference_of resource metadata ∷ [];
    all_passed = p.all_passed && (committed target resource annotations && healthy);
    terminal_failure = (p.terminal_failure || terminal) || conflicting_marker annotations;
    committed_count = counted_if (committed target resource annotations) p.committed_count;
  }

  unfoldable pub observe_found : Fields → Value → Progress → Option Progress
  observe_found target v p = do
    resource ← dict_item v
    metadata ← dict_of (get "metadata" resource)
    annotations ← dict_of (get "annotations" metadata)
    health ← workload_health resource
    some (observe_health target resource metadata annotations health p)

  abbrev pub observe_one : Fields → Read → Progress → Option Progress
  observe_one target (refused result) p = some (observe_refused target result p)
  observe_one target invalid p = some (observe_invalid target p)
  observe_one target (found v) p = observe_found target v p

  abbrev pub verdict : Progress → Bool × Bool × Fields
  verdict p = (
    p.all_passed && not (is_nil p.evidence),
    p.terminal_failure,
    field "targets" (arr (of_list p.evidence)) (
        field "partial_commit_detected" (bool (ltb 0 p.committed_count && ltb 0 p.missing_count)) (
          field "external_reference" (obj (field "resources" (arr (of_list p.references)) done))
            done)),
  )

  -- operation.verification_plan.get("targets", [])
  unfoldable pub targets_of_plan : Option (List Value)
  targets_of_plan = do plan ← dict_item op.verification_plan; iterated (lookup "targets" plan)

  module _ (loads : String → Option Value) (call : ℕ → String → Fields → Fields) where
    -- What the n-th call reads with these arguments.
    abbrev pub read_target : ℕ → Fields → Read
    read_target n args = read_of loads (call n "k8s_get" args)

    -- The loop over the targets, from the n-th call on.
    unfoldable pub observe : ℕ → List Value → Progress → Option Progress
    observe n [] p = some p
    observe n (v ∷ vs) p = do
      target ← dict_item v
      args ← target_args target
      q ← observe_one target (read_target n args) p
      observe (suc n) vs q

    unfoldable pub verify_kubernetes : Option (Bool × Bool × Fields)
    verify_kubernetes = do targets ← targets_of_plan; p ← observe 0 targets start; some (verdict p)
