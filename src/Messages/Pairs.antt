-- ===== src/Messages/Pairs.antt =====
-- engine/src/api/utils/sanitization.py: `sanitize_messages_for_openai`. The identifiers of tool calls
-- are texts.
pub mod Answered
use cloudops_agent.Prelude.{
  String, Bool, true, false, not, ◌&&◌, ◌||◌, Option, none, some, is_some, List, [], ◌∷◌, ◌++◌,
  filter, one_of, ◌==◌, if◌then◌else◌,
}
use cloudops_agent.Text.{is_empty}
use cloudops_agent.Json.{Value, null, str, arr, obj, Items, nil, cons, Fields, done, field, of_list}
use cloudops_agent.Json.Access.{get, insert, lookup}
use cloudops_agent.Executor.Metadata.{string_of, dict_of}
use cloudops_agent.Executor.Jenkins.{pop}
use cloudops_agent.Messages.Window.{has_role}

-- The identifier of a tool call that is a dict with one that is not empty.
abbrev pub call_id : Value → Option String
call_id (obj call) = elim (get "id" call) [ str s ↦ if is_empty s then none else some s | _ ↦ none ]
call_id _ = none

unfoldable pub call_ids : Items → List String
call_ids nil = []
call_ids (cons v xs) =
    let rest = call_ids xs in elim (call_id v) [ none ↦ rest | some s ↦ s ∷ rest ]

abbrev pub list_of : Value → Option Items
list_of (arr calls) = some calls
list_of _ = none

-- The tool calls of a message of the assistant, where it has a list of them.
abbrev pub calls_of : Fields → Option Items
calls_of m = if has_role "assistant" m then list_of (get "tool_calls" m) else none

abbrev pub answer_id : Fields → Option String
answer_id m = string_of (get "tool_call_id" m)

abbrev expected : List String → Option String → List String
expected ids none = []
expected ids (some id) = if one_of ids id then id ∷ [] else []

-- The identifiers that the tool messages right after a message answer.
unfoldable pub found_ids : List String → List Fields → List String
found_ids ids [] = []
found_ids ids (m ∷ ms) =
    let rest = found_ids ids ms in
    if has_role "tool" m then expected ids (answer_id m) ++ rest else []

abbrev answered_ids : Option Items → List Fields → List String
answered_ids none ms = []
answered_ids (some calls) ms = found_ids (call_ids calls) ms

unfoldable pub valid_tool_call_ids : List Fields → List String
unfolding call_ids found_ids
valid_tool_call_ids [] = []
valid_tool_call_ids (m ∷ ms) = answered_ids (calls_of m) ms ++ valid_tool_call_ids ms

-- {**msg, "content": ""} where the content is null or missing
abbrev pub put_content : Value → Fields → Fields
put_content null m = insert "content" (str "") m
put_content _ m = m

abbrev pub with_content : Fields → Fields
with_content m = put_content (get "content" m) m

abbrev pub is_valid : List String → Value → Bool
is_valid valid v = elim (call_id v) [ none ↦ false | some s ↦ one_of valid s ]

unfoldable pub valid_calls : List String → Items → Items
valid_calls valid nil = nil
valid_calls valid (cons v xs) =
    let rest = valid_calls valid xs in if is_valid valid v then cons v rest else rest

abbrev pub with_calls : Items → Fields → Fields
with_calls nil m = pop "tool_calls" m
with_calls (cons v xs) m = insert "tool_calls" (arr (cons v xs)) m

abbrev pub keeps_answer : List String → Option String → Bool
keeps_answer seen none = false
keeps_answer seen (some id) = not (is_empty id) && one_of seen id

-- One message with the identifiers seen so far: what is sent, and the identifiers seen after it.
abbrev pub sanitize_calls :
    List String → List String → Fields → Option Items → Option Fields × List String
sanitize_calls valid seen m (some calls) =
    let kept = valid_calls valid calls in (some (with_calls kept m), call_ids kept ++ seen)
sanitize_calls valid seen m none =
    if has_role "tool" m
    then (if keeps_answer seen (answer_id m) then some m else none, seen)
    else (some m, seen)

abbrev pub sanitize_one : List String → List String → Fields → Option Fields × List String
sanitize_one valid seen m = sanitize_calls valid seen (with_content m) (calls_of m)

abbrev pub add_sent : Option Fields → List Fields → List Fields
add_sent none rest = rest
add_sent (some m) rest = m ∷ rest

unfoldable pub sanitize_from : List String → List String → List Fields → List Fields
unfolding call_ids valid_calls
sanitize_from valid seen [] = []
sanitize_from valid seen (m ∷ ms) =
    let (sent, seen') = sanitize_one valid seen m in add_sent sent (sanitize_from valid seen' ms)

unfoldable pub sanitize_messages_for_openai : List Fields → List Fields
unfolding valid_tool_call_ids sanitize_from
sanitize_messages_for_openai messages = sanitize_from (valid_tool_call_ids messages) [] messages
