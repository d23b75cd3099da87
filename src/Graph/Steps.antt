-- ===== src/Graph/Steps.antt =====
-- engine/src/api/agent/graph.py: the steps of the compiled graph over any number of turns. A turn ends
-- at its last node, or anywhere by a stop, a cancellation, an error or the limit of iterations; the
-- next one goes on with the state that the last finished node left in the checkpoint.
use cloudops_agent.Prelude.{
  ℕ, String, Bool, true, false, Option, some, ◌≡◌, refl, ap, arith, ◌∙◌, sym, Bool-cases, inl, inr,
}
use cloudops_agent.Json.{Fields}
use cloudops_agent.Executor.Admit.{Outcome}
use cloudops_agent.Graph.State.{
  ToolCall, AgentState, fresh_state, Node, entry, memory_prepare, model, gate, verification, final,
  finished, route_after_model, route_from_entry, route_after_gate, route_after_verification,
  requires_any, entry_node, final_node,
}
use cloudops_agent.Graph.Gate.{gate_node}
use cloudops_agent.Graph.Gate.Flags.{Flags, gate_node-Flags}
use cloudops_agent.Graph.Verification.{Verified, verification_node}
use cloudops_agent.Graph.Verification.Cleared.{IsHonest, verification_node-Flags}
use cloudops_agent.Graph.Memory.{
  Memories, memory_prepare_node, ModelResult, model_node, turn, model_error, raised, Input,
  begin_turn,
}

-- `verify n` is what the verifier gives to the n-th pass over the verification node.
module _ (verify : ℕ → Option String → Verified) where
  pub data Step : Node → AgentState → Node → AgentState → Type 0 where
    at_entry : {s : AgentState} → Step entry s (route_from_entry (entry_node s)) (entry_node s)
    at_memory_prepare :
        {s : AgentState} (enabled : Bool) (retrieve : String → Memories)
        → Step memory_prepare s model (memory_prepare_node enabled retrieve s)
    at_model :
        {s : AgentState} (r : ModelResult)
        → Step model s (route_after_model (model_node r s)) (model_node r s)
    at_gate :
        {s s' : AgentState} (message : String) (answer : ToolCall → Fields → Outcome)
        (stop_requested : Bool)
        → gate_node s message answer stop_requested ≡ some s'
        → Step gate s (route_after_gate s') s'
    at_verification :
        {s s' : AgentState} (n : ℕ) (stop_requested : Bool)
        → verification_node s (verify n) stop_requested ≡ some s'
        → Step verification s (route_after_verification s') s'
    at_final : {s : AgentState} → Step final s finished (final_node s)
    next_turn : {n : Node} {s : AgentState} (i : Input) → Step n s entry (begin_turn i s)

  pub data Reached : Node → AgentState → Type 0 where
    first_turn : (i : Input) → Reached entry (begin_turn i fresh_state)
    one_more : {n n' : Node} {s s' : AgentState} → Reached n s → Step n s n' s' → Reached n' s'

  abbrev before_model : Node → Bool
  before_model memory_prepare = true
  before_model model = true
  before_model _ = false

  -- The flag is up while an operation is to be verified, and down where the model is next.
  record Inv (n : Node) (s : AgentState) : Type 0 where
    flags : Flags s.mutation_operations s.verification_required
    down : before_model n ≡ true → s.verification_required ≡ false

  entry_down :
      (s : AgentState) → before_model (route_from_entry s) ≡ true → s.verification_required ≡ false
  unfolding route_from_entry
  entry_down s h = ground arith

  gate_down :
      (s : AgentState) → before_model (route_after_gate s) ≡ true → s.verification_required ≡ false
  unfolding route_after_gate
  gate_down s h = ground arith

  verification_down :
      (s : AgentState)
      → before_model (route_after_verification s) ≡ true
      → s.verification_required ≡ false
  unfolding route_after_verification
  verification_down s h = ground arith

  model_down :
      (s : AgentState) → before_model (route_after_model s) ≡ true → s.verification_required ≡ false
  unfolding route_after_model
  model_down s h = ground arith

  memory_kept :
      (enabled : Bool) (retrieve : String → Memories) (s : AgentState)
      → ((memory_prepare_node enabled retrieve s).mutation_operations ≡ s.mutation_operations)
        × ((memory_prepare_node enabled retrieve s).verification_required ≡ s.verification_required)
  unfolding memory_prepare_node
  memory_kept enabled retrieve s = (ground arith, ground arith)

  model_kept :
      (r : ModelResult) (s : AgentState)
      → ((model_node r s).mutation_operations ≡ s.mutation_operations)
        × ((model_node r s).verification_required ≡ s.verification_required)
  unfolding model_node
  model_kept (turn messages calls first_token) s = (refl, refl)
  model_kept (model_error messages e) s = (refl, refl)
  model_kept (raised e) s = (refl, refl)

  kept-Flags :
      (s s' : AgentState)
      → (s'.mutation_operations ≡ s.mutation_operations)
        × (s'.verification_required ≡ s.verification_required)
      → Flags s.mutation_operations s.verification_required
      → Flags s'.mutation_operations s'.verification_required
  kept-Flags s s' (operations, flag) h r = flag ∙ h (ap requires_any (sym operations) ∙ r)

  module _ (honest : (n : ℕ) → IsHonest (verify n)) where
    Step-Inv : {n : Node} {s s' : AgentState} {n' : Node} → Step n s n' s' → Inv n s → Inv n' s'
    unfolding entry_node final_node begin_turn
    Step-Inv {s = s} at_entry inv = record { flags = inv.flags; down = entry_down (entry_node s) }
    Step-Inv {s = s} (at_memory_prepare enabled retrieve) inv =
        let kept = memory_kept enabled retrieve s in
        record {
          flags = kept-Flags s (memory_prepare_node enabled retrieve s) kept inv.flags;
          down = λ next. kept.1 ∙ inv.down refl;
        }
    Step-Inv {s = s} (at_model r) inv = record {
      flags = kept-Flags s (model_node r s) (model_kept r s) inv.flags;
      down = model_down (model_node r s);
    }
    Step-Inv {s = s} {s' = s'} (at_gate message answer stop_requested e) inv = record {
      flags = gate_node-Flags s message answer stop_requested s' inv.flags e;
      down = gate_down s';
    }
    Step-Inv {s = s} {s' = s'} (at_verification n stop_requested e) inv = record {
      flags = verification_node-Flags (verify n) (honest n) s stop_requested s' e;
      down = verification_down s';
    }
    Step-Inv at_final inv = record { flags = inv.flags; down = λ next. cc }
    Step-Inv (next_turn i) inv = record { flags = inv.flags; down = λ next. cc }

    Reached-Inv : {n : Node} {s : AgentState} → Reached n s → Inv n s
    unfolding begin_turn
    Reached-Inv (first_turn i) = record { flags = λ r. cc; down = λ next. cc }
    Reached-Inv (one_more reached step) = Step-Inv step (Reached-Inv reached)

    -- Whenever the model is called, in any turn of a session, whatever the model, the tools, the user
    -- and the verifier have answered before and wherever earlier turns have broken off, no operation of
    -- the session is waiting for a verification. The verifier is taken to say that an operation
    -- passed only with the status PASSED.
    pub model_verified :
        {s : AgentState} → Reached model s → requires_any s.mutation_operations ≡ false
    model_verified {s} reached =
        let inv = Reached-Inv reached in
        elim (Bool-cases (requires_any s.mutation_operations)) [
          | inr e ↦ e
          | inl e ↦ absurd_flag (sym (inv.flags e) ∙ inv.down refl)
        ]
      where
        absurd_flag : {b : Bool} → true ≡ false → b ≡ false
        absurd_flag clash = cc
