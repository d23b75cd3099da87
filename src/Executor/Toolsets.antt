-- ===== src/Executor/Toolsets.antt =====
-- engine/src/api/services/tool_executor.py: the filter of tools by the toolsets that a session has loaded,
-- and what of their schemas the model sees.
pub mod Laws
use cloudops_agent.Prelude.{
  String, Bool, true, false, not, ◌&&◌, ◌||◌, Option, none, some, is_some, List, [], ◌∷◌, map,
  filter, starts_with, one_of, ◌==◌, if◌then◌else◌, ◌++◌,
}
use cloudops_agent.Text.{is_empty}
use cloudops_agent.Json.{
  Value, null, bool, num, str, arr, obj, Items, nil, cons, Fields, done, field, of_list,
}
use cloudops_agent.Json.Access.{get, lookup, insert, fields_of, or_else, truthy, is_obj}
use cloudops_agent.Json.Print.{text}
use cloudops_agent.Mutation.Manifest.{text_or}
use cloudops_agent.Capability.{capability_error, is_effectively_read_only}
use cloudops_agent.Executor.Metadata.{metadata_of, string_of, get_all, items_of, input_schema}
use cloudops_agent.Executor.Jenkins.{Integration, pop, fastmcp_tags, filter_jenkins_tools}

abbrev pub available_toolsets : List String
available_toolsets = "k8s" ∷ "helm" ∷ "argo" ∷ "jenkins" ∷ "memory" ∷ []

abbrev property : String → Fields → Fields
property type rest = field "type" (str type) rest

abbrev pub load_toolset_tool : Fields
load_toolset_tool = property "function" (
    field "function"
      (obj (
        field "name" (str "load_toolset") (
          field "description"
            (str
              "Load additional tool categories into the current session. By default only read-only Kubernetes tools are available. Call this to load Helm, Argo Rollouts, or Jenkins tools, or to enable write/mutation operations for any toolset. Newly loaded tools are not callable in the same response as load_toolset. They become available on the next model turn.")
            (field "parameters"
              (obj (
                property "object" (
                  field "properties"
                    (obj (
                      field "toolset"
                        (obj (
                          property "string" (
                            field "enum" (arr (of_list (map str available_toolsets)))
                              (field "description" (str "The toolset category to load.") done))))
                        (field "include_write_tools"
                          (obj (
                            property "boolean" (
                              field "description"
                                (str
                                  "Set to true to include write/mutation tools (apply, delete, scale, patch, install, etc.). Leave false for read-only operations.")
                                done)))
                          done)))
                    (field "required"
                      (arr (cons (str "toolset") (cons (str "include_write_tools") nil))) done))))
              done))))
      done)

-- The first tag of a list that is not empty.
abbrev first_tag : Value → Option Value
first_tag (arr (cons v xs)) = some v
first_tag _ = none

abbrev prefix_tag : String → Option String
prefix_tag name =
    if starts_with name "k8s_" || name == "wait_for_x_seconds"
    then some "k8s"
    else if starts_with name "helm_"
    then some "helm"
    else if starts_with name "argo_"
    then some "argo"
    else if starts_with name "jenkins_"
    then some "jenkins"
    else if starts_with name "memory_"
    then some "memory"
    else none

abbrev name_tag : Value → Option Value
name_tag (str name) = elim (prefix_tag name) [ none ↦ none | some tag ↦ some (str tag) ]
name_tag _ = none

unfoldable pub resolve_tool_tag : Fields → Option Value
resolve_tool_tag tool = elim (first_tag (get "tags" tool)) [
  | some tag ↦ some tag
  | none ↦ elim (first_tag (fastmcp_tags tool)) [
    | some tag ↦ some tag
    | none ↦ name_tag (get "name" tool)
  ]
]

-- str(tool.get("name") or "")
abbrev pub name_of : Fields → String
name_of tool = text_or (get "name" tool) ""

unfoldable pub is_read_only : Fields → Bool
is_read_only tool = is_effectively_read_only (name_of tool) (some (metadata_of tool))

-- loaded_toolsets.get(tag), `none` where the tag is not in it
unfoldable pub toolset_mode : String → List (String × Bool) → Option Bool
toolset_mode tag [] = none
toolset_mode tag ((k, write) ∷ rest) = if k == tag then some write else toolset_mode tag rest

abbrev pub mode_of_tag : Option Value → List (String × Bool) → Option Bool
mode_of_tag none loaded = none
mode_of_tag (some (str tag)) loaded =
    if one_of available_toolsets tag then toolset_mode tag loaded else none
mode_of_tag (some _) loaded = none

-- The test of one tool in the loop of `filter_tools_by_loaded_toolsets`.
unfoldable pub is_offered : List (String × Bool) → Fields → Bool
unfolding resolve_tool_tag toolset_mode is_read_only
is_offered loaded tool =
    if is_some (capability_error (name_of tool) (some (metadata_of tool)))
    then false
    else elim (mode_of_tag (resolve_tool_tag tool) loaded) [
      | none ↦ false
      | some include_write ↦ include_write || is_read_only tool
    ]

unfoldable pub filter_tools_by_loaded_toolsets : List Fields → List (String × Bool) → List Fields
unfolding is_offered
filter_tools_by_loaded_toolsets tools loaded = filter (is_offered loaded) tools

abbrev pub memory_internal_params : List String
memory_internal_params = "_user_id" ∷ "_conversation_id" ∷ "_run_id" ∷ []

-- The parameters of a tool that the engine fills in itself.
unfoldable pub is_engine_owned : String → String → Bool
unfolding one_of
is_engine_owned tool_name key =
    (starts_with tool_name "memory_" && one_of memory_internal_params key)
    || starts_with key "_skyflo_"
    || key == "skyflo_operation_id"

unfoldable pub strip_properties : String → Fields → Fields
strip_properties tool_name done = done
strip_properties tool_name (field k v d) =
    let rest = strip_properties tool_name d in
    if is_engine_owned tool_name k then rest else field k v rest

unfoldable pub strip_required : String → Items → Items
strip_required tool_name nil = nil
strip_required tool_name (cons v xs) =
    let rest = strip_required tool_name xs in
    if is_engine_owned tool_name (text v) then rest else cons v rest

abbrev pub with_properties : String → Value → Fields → Fields
with_properties tool_name (obj props) params =
    insert "properties" (obj (strip_properties tool_name props)) params
with_properties tool_name _ params = params

abbrev pub with_required : String → Value → Fields → Fields
with_required tool_name (arr required) params =
    insert "required" (arr (strip_required tool_name required)) params
with_required tool_name _ params = params

abbrev pub strip_params : String → Fields → Fields
strip_params tool_name params =
    let params' = with_properties tool_name (get "properties" params) params in
    with_required tool_name (get "required" params') params'

abbrev strip_function : Fields → Fields
strip_function fn = elim (get "name" fn) [
  | str name ↦ elim (get "parameters" fn) [
    | obj params ↦ insert "parameters" (obj (strip_params name params)) fn
    | _ ↦ fn
  ]
  | _ ↦ fn
]

-- One tool of the loop of `_strip_internal_memory_params`.
unfoldable pub strip_internal_params : Fields → Fields
unfolding strip_properties strip_required
strip_internal_params tool = elim (get "function" tool) [
  | obj fn ↦ insert "function" (obj (strip_function fn)) tool
  | _ ↦ tool
]
