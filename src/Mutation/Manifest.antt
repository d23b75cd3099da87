-- ===== src/Mutation/Manifest.antt =====
-- engine/src/api/services/mutation_utils.py: manifests. PyYAML is a parameter: `load_all` and `load`
-- give `none` where it raises a YAML error.
pub mod Targets
pub mod Secrets
use Prim.Native.String.{◌++◌}
use cloudops_agent.Prelude.{
  String, Bool, true, false, not, ◌&&◌, ◌||◌, Option, none, some, List, [], ◌∷◌, map, ◌==◌, one_of,
  if◌then◌else◌, ◌>>=◌, is_some,
}
use cloudops_agent.Text.{is_empty, lower, strip}
use cloudops_agent.Json.{
  Value, null, bool, num, str, arr, obj, Items, nil, cons, Fields, done, field,
}
use cloudops_agent.Json.Access.{lookup, get, insert, or_else, is_obj, fields_of, truthy}
use cloudops_agent.Json.Print.{text}
use cloudops_agent.Mutation.Redact.{redacted, redact_sensitive, redact_fields}

pub record Yaml : Type 0 where
  pub load_all : String → Option (List Value)
  pub dump_all : List Value → String
  pub load : String → Option Value
  pub dump : Value → String
  -- the text of the exception
  pub error_text : String → String
  -- The dicts among the documents of a text, when those at `metadata` and its `annotations` have been
  -- changed in place to what the argument has there: the changes are seen wherever an alias of the
  -- text puts the same dict, and a text without aliases is given back as it is.
  pub spread_aliases : String → List Fields → List Fields

-- str(v or default)
abbrev pub text_or : Value → String → String
text_or v default = text (or_else v (str default))

abbrev pub hide : String → Fields → Fields
hide k d = if is_some (lookup k d) then insert k redacted d else d

-- One document of `redact_manifest_content`.
unfoldable pub redact_document : Fields → Fields
unfolding lower text
redact_document raw = redact_fields (
    if lower (text_or (get "kind" raw) "") == "secret"
    then hide "stringData" (hide "data" raw)
    else raw)

-- The documents that are dicts; the others are skipped.
unfoldable pub documents : List Value → List Fields
documents [] = []
documents (obj d ∷ rest) = d ∷ documents rest
documents (_ ∷ rest) = documents rest

module _ (yaml : Yaml) where
  unfoldable pub redact_manifest_content : String → String
  unfolding redact_document
  redact_manifest_content content = elim (yaml.load_all content) [
    | none ↦ "[UNPARSEABLE MANIFEST REDACTED]"
    | some docs ↦ yaml.dump_all (map (λ d. obj (redact_document d)) (documents docs))
  ]

  abbrev redact_text : (String → String) → String → Fields → Fields
  redact_text f k d = elim (get k d) [ str s ↦ insert k (str (f s)) d | _ ↦ d ]

  redact_values : String → String
  redact_values values = elim (yaml.load values) [
    | none ↦ "[UNPARSEABLE HELM VALUES REDACTED]"
    | some parsed ↦ yaml.dump (redact_sensitive parsed)
  ]

  unfoldable pub redact_tool_args : String → Fields → Fields
  unfolding redact_manifest_content redact_values
  redact_tool_args tool_name args =
      let clean = redact_fields args in
      if tool_name == "k8s_apply"
      then redact_text redact_manifest_content "content" clean
      else if tool_name == "helm_install_with_values"
      then redact_text redact_values "values" clean
      else clean

pub record Target : Type 0 where
  pub api_version : String
  pub kind : String
  pub name : String
  pub namespace : String
  pub desired_spec : Option Fields

abbrev pub desired_spec_of : String → Value → Option Fields
desired_spec_of kind spec =
    if lower kind == "secret" then none else elim spec [ obj d ↦ some d | _ ↦ none ]

-- One document of `parse_manifest_targets`.
unfoldable pub target_of : String → Fields → Option Target
unfolding strip text lower
target_of default_namespace raw =
    let metadata = fields_of (get "metadata" raw) in
    let kind = strip (text_or (get "kind" raw) "") in
    let name = strip (text_or (get "name" metadata) "") in
    if is_empty kind || is_empty name
    then none
    else some (record {
      api_version = text_or (get "apiVersion" raw) "v1";
      kind = kind;
      name = name;
      namespace = strip (text_or (get "namespace" metadata) default_namespace);
      desired_spec = desired_spec_of kind (get "spec" raw);
    })

-- `continue` on a document that names no resource
unfoldable pub add_target : Option Target → List Target → List Target
add_target none rest = rest
add_target (some t) rest = t ∷ rest

unfoldable pub targets_of : String → List Fields → List Target
targets_of default_namespace [] = []
targets_of default_namespace (raw ∷ rest) =
    add_target (target_of default_namespace raw) (targets_of default_namespace rest)

-- { str(target.get("namespace") or "default") for target in targets }, as a list
abbrev pub target_namespace : Target → String
target_namespace t = if is_empty t.namespace then "default" else t.namespace

abbrev pub operation_id_key : String
operation_id_key = "skyflo.ai/operation-id"

abbrev pub desired_state_key : String
desired_state_key = "skyflo.ai/desired-state-hmac"

-- The marks are written in place; what aliases make of that is `spread_aliases`.
-- d.setdefault(k, {}), which must be a dict for what follows; `none` where it raises
abbrev pub default_dict : Option Value → Option Fields
default_dict none = some done
default_dict (some (obj e)) = some e
default_dict (some _) = none

abbrev pub dict_at : String → Fields → Option Fields
dict_at k d = default_dict (lookup k d)

module _ (operation_id desired_state_hmac : String) where
  unfoldable pub mark_annotations : Fields → Fields
  mark_annotations annotations =
      insert desired_state_key (str desired_state_hmac)
        (insert operation_id_key (str operation_id) annotations)

  unfoldable pub mark_metadata : Fields → Option Fields
  unfolding mark_annotations
  mark_metadata metadata = do
    annotations ← dict_at "annotations" metadata
    some (insert "annotations" (obj (mark_annotations annotations)) metadata)

  unfoldable pub mark_document : Fields → Option Fields
  unfolding mark_metadata
  mark_document raw = do
    metadata ← dict_at "metadata" raw
    marked ← mark_metadata metadata
    some (insert "metadata" (obj marked) raw)

  unfoldable pub mark_documents : List Fields → Option (List Fields)
  mark_documents [] = some []
  mark_documents (raw ∷ rest) = do d ← mark_document raw; ds ← mark_documents rest; some (d ∷ ds)

module _ (yaml : Yaml) where
  -- `none` where PyYAML raises
  unfoldable pub parse_manifest_targets : String → String → Option (List Target)
  parse_manifest_targets content default_namespace = do
    docs ← yaml.load_all content
    some (targets_of default_namespace (documents docs))

  unfoldable pub marked_content : String → String → String → Option String
  marked_content content operation_id desired_state_hmac = do
    docs ← yaml.load_all content
    marked ← mark_documents operation_id desired_state_hmac (documents docs)
    some (yaml.dump_all (map obj (yaml.spread_aliases content marked)))

  -- `none` where a document cannot be parsed or marked, and the call raises
  unfoldable pub attach_operation_metadata : String → Fields → String → String → Option Fields
  unfolding marked_content text one_of
  attach_operation_metadata tool_name args operation_id desired_state_hmac =
      if tool_name == "k8s_apply"
      then (do
        content ← marked_content (text_or (get "content" args) "") operation_id desired_state_hmac
        some (insert "content" (str content) args))
      else if one_of
          ("helm_install" ∷ "helm_install_with_values" ∷ "helm_upgrade" ∷ "helm_rollback" ∷ [])
          tool_name
      then some (insert "skyflo_operation_id" (str operation_id) args)
      else some args
