-- ===== src/Graph/Memory.antt =====
-- engine/src/api/agent/graph.py: `_memory_prepare_node` and `_model_node`, and the input of a turn in
-- engine/src/api/endpoints/agent.py. Retrieving memories, formatting them and calling the model are
-- parameters.
use cloudops_agent.Prelude.{
  String, Bool, true, false, not, Option, none, some, List, [], ◌∷◌, ◌++◌, ◌==◌, if◌then◌else◌,
}
use cloudops_agent.Text.{is_empty}
use cloudops_agent.Json.{Value, str, arr, obj, Items, nil, cons, Fields}
use cloudops_agent.Json.Access.{get}
use cloudops_agent.Graph.State.{ToolCall, AgentState}
use cloudops_agent.Graph.Gate.{is_type}

abbrev string_or_empty : Value → String
string_or_empty (str s) = s
string_or_empty _ = ""

-- The text of the first part of type "text".
unfoldable pub first_text : Items → String
first_text nil = ""
first_text (cons (obj part) xs) =
    let rest = first_text xs in
    if is_type "text" part then string_or_empty (get "text" part) else rest
first_text (cons _ xs) = first_text xs

abbrev content_text : Value → String
content_text (arr parts) = first_text parts
content_text (str s) = s
content_text _ = ""

abbrev is_user : Fields → Bool
is_user message = elim (get "role" message) [ str r ↦ r == "user" | _ ↦ false ]

abbrev user_text : Value → String
user_text (obj message) = if is_user message then content_text (get "content" message) else ""
user_text _ = ""

-- The text of the last message of the user that has one.
unfoldable pub latest_user_msg : List Value → String
latest_user_msg [] = ""
latest_user_msg (m ∷ ms) =
    let later = latest_user_msg ms in if is_empty later then user_text m else later

-- What retrieving gives: nothing, where it fails too, or hits with the message made of them.
pub data Memories : Type 0 where
  no_hits : Memories
  hits : List Value → Option Value → Memories

abbrev with_memories : Memories → AgentState → AgentState
with_memories no_hits s = record s { memory_context_loaded = true }
with_memories (hits found none) s = record s { memory_context_loaded = true; memory_hits = found }
with_memories (hits found (some message)) s = record s {
  memory_context_loaded = true;
  memory_hits = found;
  memory_context_msg = some message;
}

unfoldable pub memory_prepare_node : Bool → (String → Memories) → AgentState → AgentState
unfolding latest_user_msg
memory_prepare_node enabled retrieve s =
    if not enabled
    then s
    else if s.memory_context_loaded
    then s
    else if is_empty (latest_user_msg s.messages)
    then record s { memory_context_loaded = true }
    else with_memories (retrieve (latest_user_msg s.messages)) s

-- What the model node's call gives.
pub data ModelResult : Type 0 where
  turn : List Value → List ToolCall → Bool → ModelResult
  model_error : List Value → String → ModelResult
  raised : String → ModelResult

unfoldable pub model_node : ModelResult → AgentState → AgentState
model_node (turn messages calls first_token) s = record s {
  messages = s.messages ++ messages;
  pending_tools = calls;
  ttft_emitted = if first_token then true else s.ttft_emitted;
}
model_node (model_error messages e) s = record s {
  messages = s.messages ++ messages;
  pending_tools = [];
  error = some e;
}
model_node (raised e) s = record s { error = some e }

-- The input of a turn, merged into the state of the checkpoint.
pub record Input : Type 0 where
  pub run_id : String
  pub messages : List Value
  pub conversation_id : String
  pub user_id : Option String
  pub user_role : Option String
  pub environment : String
  pub suppress_pending_event : Bool
  pub pending_tools : Option (List ToolCall)
  pub approval_decisions : Option (List (String × Bool))
  pub approval_reasons : Option (List (String × String))

abbrev pub given {ℓ} : {A : Type ℓ} → Option A → A → A
given none a = a
given (some b) a = b

unfoldable pub begin_turn : Input → AgentState → AgentState
begin_turn i s = record s {
  run_id = some i.run_id;
  messages = s.messages ++ i.messages;
  conversation_id = some i.conversation_id;
  user_id = i.user_id;
  user_role = i.user_role;
  environment = i.environment;
  suppress_pending_event = if i.suppress_pending_event then true else s.suppress_pending_event;
  pending_tools = given i.pending_tools s.pending_tools;
  approval_decisions = given i.approval_decisions s.approval_decisions;
  approval_reasons = given i.approval_reasons s.approval_reasons;
}
