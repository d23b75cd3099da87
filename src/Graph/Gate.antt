-- ===== src/Graph/Gate.antt =====
-- engine/src/api/agent/graph.py: `_gate_node`. What `ToolExecutor.execute` gives for a tool and its
-- arguments is a parameter, and so is the text of an exception of `_handle_load_toolset`.
pub mod Flags
use cloudops_agent.Prelude.{
  String, Bool, true, false, not, ◌&&◌, ◌||◌, Option, none, some, List, [], ◌∷◌, ◌++◌, filter, any,
  one_of, ◌==◌, if◌then◌else◌,
}
use Prim.Native.String.{◌++◌ as join_text}
use cloudops_agent.Json.{Value, null, bool, str, obj, Fields, done, field}
use cloudops_agent.Json.Access.{get, truthy, fields_of}
use cloudops_agent.Json.Print.{text}
use cloudops_agent.Executor.Metadata.{string_of}
use cloudops_agent.Executor.Admit.{Outcome, reply, approval_pending, cancelled_error}
use cloudops_agent.Graph.State.{ToolCall, AgentState, requires_verification, requires_any}
use cloudops_agent.Graph.Toolsets.{handle_load_toolset, inject_memory_context}

abbrev pub memory_tool_names : List String
memory_tool_names =
    "memory_search" ∷ "memory_read" ∷ "memory_list" ∷ "memory_history" ∷ "memory_remember"
    ∷ "memory_patch" ∷ "memory_propose_promotion" ∷ []

abbrev pub operation_id_of : Fields → Option String
operation_id_of op = string_of (get "operation_id" op)

-- The identifiers of two operations, which are texts or missing.
abbrev pub same_id : Option String → Option String → Bool
same_id none none = true
same_id none (some t) = false
same_id (some s) none = false
same_id (some s) (some t) = s == t

-- What the loop over the pending tools carries.
pub record Gate : Type 0 where
  pub tool_messages : List Value
  pub operations : List Fields
  pub required : Bool
  pub loaded : List (String × Bool)
  pub changed : Bool

abbrev pub is_type : String → Fields → Bool
is_type kind block = elim (get "type" block) [ str s ↦ s == kind | _ ↦ false ]

-- `replace the operation of the block, and remember whether it requires verification`
abbrev pub add_operation : Fields → Gate → Gate
add_operation block g = record g {
  operations =
      filter (λ item. not (same_id (operation_id_of item) (operation_id_of block))) g.operations
      ++ block ∷ [];
  required = g.required || requires_verification block;
}

abbrev block_text : Fields → String
block_text block =
    if is_type "text" block
    then (elim (get "text" block) [ str s ↦ s | _ ↦ "" ])
    else text (obj block)

-- The text of the tool's message, and the operations of the blocks.
unfoldable pub absorb : List Value → String → Gate → String × Gate
absorb [] content g = (content, g)
absorb (v ∷ blocks) content g =
    let block = fields_of v in
    if is_type "skyflo.mutation" block
    then absorb blocks content (add_operation block g)
    else absorb blocks (join_text content (block_text block)) g

abbrev pub tool_message : ToolCall → String → Value
tool_message c content = obj (
    field "role" (str "tool") (
      field "tool_call_id" (str c.id)
        (field "name" (str c.name) (field "content" (str content) done))))

abbrev pub add_message : ToolCall → String → Gate → Gate
add_message c content g = record g {
  tool_messages = g.tool_messages ++ tool_message c content ∷ [];
}

pub data GateEnd : Type 0 where
  paused : List ToolCall → Gate → GateEnd
  passed_all : Gate → GateEnd
  interrupted : GateEnd

-- One tool: what the loop goes on with, or the pause or the cancellation that ends it.
pub data Turn : Type 0 where
  go_on : Gate → Turn
  pause : Turn
  cancel : Turn

module _ (s : AgentState) (raised : String) (answer : ToolCall → Fields → Outcome) where
  abbrev args_of : ToolCall → Fields
  args_of c =
      if one_of memory_tool_names c.name
      then inject_memory_context s.user_id s.conversation_id s.run_id c.args
      else c.args

  abbrev pub load_into : ToolCall → Option (String × List (String × Bool)) → Gate → Gate
  load_into c none g =
      add_message c (join_text "Error executing tool " (join_text c.name (join_text ": " raised))) g
  load_into c (some (content, loaded)) g =
      add_message c content (record g { loaded = loaded; changed = true })

  abbrev pub receive : ToolCall → Outcome → Gate → Turn
  receive c (reply blocks) g =
      let (content, g') = absorb blocks "" g in go_on (add_message c content g')
  receive c approval_pending g = pause
  receive c cancelled_error g = cancel

  unfoldable pub take_turn : ToolCall → Gate → Turn
  take_turn c g =
      if c.name == "load_toolset"
      then go_on (load_into c (handle_load_toolset c.args g.loaded) g)
      else receive c (answer c (args_of c)) g

  unfoldable pub gate_loop : List ToolCall → Gate → GateEnd
  gate_loop [] g = passed_all g
  gate_loop (c ∷ cs) g = elim (take_turn c g) [
    | go_on g' ↦ gate_loop cs g'
    | pause ↦ paused (c ∷ cs) g
    | cancel ↦ interrupted
  ]

  abbrev toolsets_after : Gate → List (String × Bool)
  toolsets_after g = if g.changed then g.loaded else s.loaded_toolsets

  abbrev pub gate_state : List ToolCall → Bool → Gate → AgentState
  gate_state remaining awaiting g = record s {
    messages = s.messages ++ g.tool_messages;
    pending_tools = remaining;
    awaiting_approval = awaiting;
    suppress_pending_event = false;
    mutation_operations = g.operations;
    verification_required = g.required;
    verification_blocked = false;
    loaded_toolsets = toolsets_after g;
  }

  -- The flag is rebuilt from the operations.
  abbrev pub gate_start : Gate
  gate_start = record {
    tool_messages = [];
    operations = s.mutation_operations;
    required = requires_any s.mutation_operations;
    loaded = s.loaded_toolsets;
    changed = false;
  }

  abbrev pub gate_end : GateEnd → Option AgentState
  gate_end (paused remaining g) = some (gate_state remaining true g)
  gate_end (passed_all g) = some (gate_state [] false g)
  gate_end interrupted = none

  -- A requested stop is an exception whose text is empty, and the node's handler takes it.
  abbrev pub gate_stopped : AgentState
  gate_stopped = record s {
    messages =
        s.messages
        ++ obj (
            field "role" (str "assistant")
              (field "name" null (field "content" (str "Error in tool execution gate: ") done)))
          ∷ [];
    pending_tools = [];
    error = some "";
    suppress_pending_event = false;
  }

  abbrev pub gate_tools : List ToolCall → Option AgentState
  gate_tools [] = some (record s { pending_tools = []; suppress_pending_event = false })
  gate_tools (c ∷ cs) = gate_end (gate_loop (c ∷ cs) gate_start)

  -- `none` where a cancellation leaves the node.
  unfoldable pub gate_node : Bool → Option AgentState
  gate_node stop_requested =
      if stop_requested then some gate_stopped else gate_tools s.pending_tools
