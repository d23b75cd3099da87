-- ===== src/Graph/Toolsets.antt =====
-- engine/src/api/agent/graph.py: `_handle_load_toolset` and `_inject_memory_context`.
pub mod Identity
use cloudops_agent.Prelude.{
  String, Bool, true, false, not, ◌&&◌, ◌||◌, Option, none, some, is_some, List, [], ◌∷◌, one_of,
  ◌==◌, if◌then◌else◌, ◌≡◌, refl, arith, eq_iff, starts_with,
}
use Prim.Native.String.{◌++◌}
use cloudops_agent.Text.{is_empty, lower, strip, join, lstrip_by}
use cloudops_agent.Json.{Value, null, bool, str, Fields, done, field}
use cloudops_agent.Json.Access.{get, lookup, insert, truthy, lookup-insert}
use cloudops_agent.Json.Print.{shown}
use cloudops_agent.Executor.Toolsets.{available_toolsets, toolset_mode}
use cloudops_agent.Prelude.{nat_eq}

unfoldable pub set_mode : String → Bool → List (String × Bool) → List (String × Bool)
set_mode k w [] = (k, w) ∷ []
set_mode k w ((j, v) ∷ rest) = if j == k then (j, w) ∷ rest else (j, v) ∷ set_mode k w rest

-- (args.get("toolset") or "").strip().lower(), `none` where what is there is no text and it raises
unfoldable pub toolset_of : Fields → Option String
toolset_of args = elim (get "toolset" args) [
  | str s ↦ some (lower (strip s))
  | v ↦ if truthy v then none else some ""
]

-- The argument `include_write_tools`, or the complaint about it.
pub data WriteArgument : Type 0 where
  include_write : Bool → WriteArgument
  refused : String → WriteArgument

abbrev invalid : Value → WriteArgument
invalid v = refused ("Invalid 'include_write_tools' value: " ++ shown v ++ ". Must be a boolean.")

unfoldable pub write_argument : Value → WriteArgument
write_argument (bool b) = include_write b
write_argument (str s) =
    let word = lower (strip s) in
    if one_of ("true" ∷ "false" ∷ []) word then include_write (word == "true") else invalid (str s)
write_argument null =
    refused
      "Missing required argument 'include_write_tools' (boolean). Pass true to load write/mutation tools, false for read-only."
write_argument v = invalid v

abbrev pub had_write : String → List (String × Bool) → Bool
had_write toolset loaded = elim (toolset_mode toolset loaded) [ none ↦ false | some w ↦ w ]

abbrev mode_name : Bool → String
mode_name w = if w then "read and write" else "read-only"

abbrev loaded_message : String → Bool → List (String × Bool) → String
loaded_message toolset write loaded =
    let mode = mode_name (had_write toolset loaded || write) in
    if is_some (toolset_mode toolset loaded) && not (write && not (had_write toolset loaded))
    then "Toolset '" ++ toolset ++ "' is already loaded (" ++ mode ++ ")."
    else "Toolset '" ++ toolset ++ "' loaded (" ++ mode ++ "). You can now use " ++ toolset
      ++ " tools."

abbrev load : String → WriteArgument → List (String × Bool) → String × List (String × Bool)
load toolset (refused message) loaded = (message, loaded)
load toolset (include_write write) loaded = (
  loaded_message toolset write loaded,
  set_mode toolset (had_write toolset loaded || write) loaded,
)

-- The message and the loaded toolsets; `none` where the call raises.
unfoldable pub handle_load_toolset :
    Fields → List (String × Bool) → Option (String × List (String × Bool))
handle_load_toolset args loaded = elim (toolset_of args) [
  | none ↦ none
  | some toolset ↦ some (
      if one_of available_toolsets toolset
      then load toolset (write_argument (get "include_write_tools" args)) loaded
      else (
        "Unknown toolset '" ++ toolset ++ "'. Available: " ++ join ", " available_toolsets,
        loaded,
      ))
]

-- A key that names the user, the conversation or the run, with underscores before it or not.
unfoldable pub is_identity_key : String → Bool
is_identity_key k =
    one_of ("_user_id" ∷ "_conversation_id" ∷ "_run_id" ∷ []) k
    || one_of ("user_id" ∷ "conversation_id" ∷ "run_id" ∷ []) (lstrip_by (λ n. nat_eq n b'_') k)

unfoldable pub without_identity : Fields → Fields
without_identity done = done
without_identity (field k v d) =
    let rest = without_identity d in if is_identity_key k then rest else field k v rest

-- if v: merged[k] = str(v)
unfoldable pub insert_identity : String → Option String → Fields → Fields
insert_identity k none d = d
insert_identity k (some s) d = if is_empty s then d else insert k (str s) d

-- `_inject_memory_context` with the state's user, conversation and run
unfoldable pub inject_memory_context :
    Option String → Option String → Option String → Fields → Fields
inject_memory_context user_id conversation_id run_id args = insert_identity "_run_id" run_id (
    insert_identity "_conversation_id" conversation_id
      (insert_identity "_user_id" user_id (without_identity args)))
