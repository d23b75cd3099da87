-- ===== src/Executor/Metadata.antt =====
-- engine/src/api/services/tools_cache.py and approvals.py: the cache of what the server says of its
-- tools, and which calls need an approval. A tool is a dict; what it holds at `annotations`, at `meta`
-- and at the schema is a dict or null, as the MCP client's typed models give.
use cloudops_agent.Prelude.{
  String, Bool, true, false, not, Option, none, some, List, [], ◌∷◌, ◌==◌, if◌then◌else◌,
}
use cloudops_agent.Text.{is_empty}
use cloudops_agent.Json.{Value, str, arr, obj, Items, nil, cons, Fields, done, field}
use cloudops_agent.Json.Access.{get, truthy, fields_of, or_else, lookup}
use cloudops_agent.Capability.{ToolMetadata}

-- The strings of a list.
abbrev pub strings : Items → List String
strings nil = []
strings (cons (str s) xs) = s ∷ strings xs
strings (cons _ xs) = strings xs

abbrev pub items_of : Value → Items
items_of (arr xs) = xs
items_of _ = nil

abbrev pub string_of : Value → Option String
string_of (str s) = some s
string_of _ = none

abbrev pub dict_of : Value → Option Fields
dict_of (obj d) = some d
dict_of _ = none

-- tool.get("inputSchema") or tool.get("input_schema")
abbrev pub input_schema : Fields → Value
input_schema tool = or_else (get "inputSchema" tool) (get "input_schema" tool)

-- What `capability_error`, `execute` and `_validate_tool_parameters` read of the dict.
abbrev pub metadata_of : Fields → ToolMetadata
metadata_of tool = record {
  title = string_of (get "title" tool);
  annotations = dict_of (get "annotations" tool);
  required = strings (items_of (get "required" (fields_of (input_schema tool))));
}

abbrev pub metadata_of_maybe : Option Fields → Option ToolMetadata
metadata_of_maybe none = none
metadata_of_maybe (some tool) = some (metadata_of tool)

pub record ToolsCache : Type 0 where
  pub by_name : List (String × Fields)
  pub all_dumped : List Fields

abbrev pub empty_cache : ToolsCache
empty_cache = record { by_name = []; all_dumped = [] }

-- A name that a tool is listed under: a string that is not empty.
abbrev pub listed_name : Fields → Option String
listed_name tool = elim (get "name" tool) [ str s ↦ if is_empty s then none else some s | _ ↦ none ]

-- by_name[name] = d, the later of two with one name standing in front
unfoldable pub index_tools : List Fields → List (String × Fields) → List (String × Fields)
index_tools [] index = index
index_tools (tool ∷ tools) index = elim (listed_name tool) [
  | none ↦ index_tools tools index
  | some name ↦ index_tools tools ((name, tool) ∷ index)
]

unfoldable pub named_tools : List Fields → List Fields
named_tools [] = []
named_tools (tool ∷ tools) =
    let rest = named_tools tools in
    elim (listed_name tool) [ none ↦ rest | some name ↦ tool ∷ rest ]

unfoldable pub build : List Fields → ToolsCache
unfolding index_tools named_tools
build tools = record { by_name = index_tools tools []; all_dumped = named_tools tools }

unfoldable pub find_tool : String → List (String × Fields) → Option Fields
find_tool name [] = none
find_tool name ((k, tool) ∷ index) = if k == name then some tool else find_tool name index

-- `fetched` is what a call of the fetcher gives, `none` where it raises. The result is `none` where
-- `ensure_loaded` raises.
unfoldable pub ensure_loaded : Option (List Fields) → ToolsCache → Option ToolsCache
unfolding build
ensure_loaded fetched cache = elim cache.all_dumped [
  | tool ∷ tools ↦ some cache
  | [] ↦ elim fetched [ none ↦ none | some tools ↦ some (build tools) ]
]

unfoldable pub get_all : Option (List Fields) → ToolsCache → Option (List Fields) × ToolsCache
unfolding ensure_loaded
get_all fetched cache = elim (ensure_loaded fetched cache) [
  | none ↦ (none, cache)
  | some loaded ↦ (some loaded.all_dumped, loaded)
]

-- A cache that is still empty is filled by a second call of the fetcher, `again`.
abbrev pub get_again :
    String → Option (List Fields) → ToolsCache → Option (Option Fields) × ToolsCache
get_again name again loaded = elim (ensure_loaded again loaded) [
  | none ↦ (none, loaded)
  | some filled ↦ (some (find_tool name filled.by_name), filled)
]

unfoldable pub get_by_name :
    String
    → Option (List Fields)
    → Option (List Fields)
    → ToolsCache
    → Option (Option Fields) × ToolsCache
unfolding ensure_loaded find_tool
get_by_name name fetched again cache = elim (ensure_loaded fetched cache) [
  | none ↦ (none, cache)
  | some loaded ↦ elim (find_tool name loaded.by_name) [
    | some tool ↦ (some (some tool), loaded)
    | none ↦ get_again name again loaded
  ]
]

-- `_get_tool_metadata`: an error is no metadata
unfoldable pub get_tool_metadata :
    String → Option (List Fields) → Option (List Fields) → ToolsCache → Option Fields × ToolsCache
unfolding get_by_name
get_tool_metadata name fetched again cache =
    let (found, cache') = get_by_name name fetched again cache in
    elim found [ none ↦ (none, cache') | some tool ↦ (tool, cache') ]

abbrev pub is_system_tool : Option Fields → Bool
is_system_tool none = false
is_system_tool (some tool) = truthy (get "systemTool" (fields_of (get "annotations" tool)))

-- `ApprovalService.need_approval`, on the annotations: null there raises, and `except` answers yes
abbrev pub annotations_need_approval : Option Value → Bool
annotations_need_approval none = true
annotations_need_approval (some (obj a)) =
    if truthy (get "systemTool" a) then false else not (truthy (get "readOnlyHint" a))
annotations_need_approval (some _) = true

unfoldable pub need_approval : Option Fields → Bool
need_approval none = true
need_approval (some done) = true
need_approval (some (field k v tool)) =
    annotations_need_approval (lookup "annotations" (field k v tool))
