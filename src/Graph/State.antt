-- ===== src/Graph/State.antt =====
-- engine/src/api/agent/state.py: the state, without its times and its random identifiers; and the
-- routes of engine/src/api/agent/graph.py.
use cloudops_agent.Prelude.{
  String, Bool, true, false, not, Option, none, some, List, [], ◌∷◌, any, if◌then◌else◌,
}
use cloudops_agent.Text.{is_empty}
use cloudops_agent.Json.{Value, Fields}
use cloudops_agent.Json.Access.{get, truthy}
use cloudops_agent.Verifier.Loop.{Answer}

-- One entry of `pending_tools`, as the model node makes them.
pub record ToolCall : Type 0 where
  pub id : String
  pub call_id : Option String
  pub operation_id : Option String
  pub name : String
  pub args : Fields

pub record AgentState : Type 0 where
  pub run_id : Option String
  pub messages : List Value
  pub pending_tools : List ToolCall
  pub done : Bool
  pub conversation_id : Option String
  pub user_id : Option String
  pub user_role : Option String
  pub environment : String
  pub error : Option String
  pub awaiting_approval : Bool
  pub suppress_pending_event : Bool
  pub ttft_emitted : Bool
  pub approval_decisions : List (String × Bool)
  pub approval_reasons : List (String × String)
  pub mutation_operations : List Fields
  pub verification_required : Bool
  pub verification_blocked : Bool
  pub verification_evidence : List Answer
  pub loaded_toolsets : List (String × Bool)
  pub memory_context_loaded : Bool
  pub memory_hits : List Value
  pub memory_context_msg : Option Value

abbrev pub initial_toolsets : List (String × Bool)
initial_toolsets = ("k8s", false) ∷ ("memory", false) ∷ []

-- A state before the first turn.
abbrev pub fresh_state : AgentState
fresh_state = record {
  run_id = none;
  messages = [];
  pending_tools = [];
  done = false;
  conversation_id = none;
  user_id = none;
  user_role = none;
  environment = "development";
  error = none;
  awaiting_approval = false;
  suppress_pending_event = false;
  ttft_emitted = false;
  approval_decisions = [];
  approval_reasons = [];
  mutation_operations = [];
  verification_required = false;
  verification_blocked = false;
  verification_evidence = [];
  loaded_toolsets = initial_toolsets;
  memory_context_loaded = false;
  memory_hits = [];
  memory_context_msg = none;
}

pub data Node : Type 0 where
  entry memory_prepare model gate verification final finished : Node

abbrev is_pending : List ToolCall → Bool
is_pending [] = false
is_pending (c ∷ cs) = true

-- A message that is empty counts as no error.
abbrev is_error : Option String → Bool
is_error none = false
is_error (some e) = not (is_empty e)

unfoldable pub route_after_model : AgentState → Node
route_after_model s =
    if is_pending s.pending_tools
    then gate
    else if s.verification_required
    then verification
    else final

unfoldable pub route_from_entry : AgentState → Node
route_from_entry s =
    if is_pending s.pending_tools
    then gate
    else if s.verification_required
    then verification
    else memory_prepare

unfoldable pub route_after_gate : AgentState → Node
route_after_gate s =
    if s.awaiting_approval
    then final
    else if is_error s.error
    then final
    else if s.verification_required
    then verification
    else model

unfoldable pub route_after_verification : AgentState → Node
route_after_verification s =
    if s.verification_blocked then final else if s.verification_required then final else model

abbrev pub requires_verification : Fields → Bool
requires_verification item = truthy (get "requires_verification" item)

-- Whether some operation of the session is still to be verified.
abbrev pub requires_any : List Fields → Bool
requires_any = any requires_verification

-- `_entry_node`, where no stop is requested
unfoldable pub entry_node : AgentState → AgentState
entry_node s = record s {
  ttft_emitted = false;
  memory_context_loaded = false;
  memory_context_msg = none;
  error = none;
  verification_blocked = false;
  awaiting_approval = false;
}

unfoldable pub final_node : AgentState → AgentState
final_node s = record s { done = true }
