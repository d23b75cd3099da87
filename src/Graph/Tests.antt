-- ===== src/Graph/Tests.antt =====
-- A session that changes something, verifies it and goes on.
use cloudops_agent.Prelude.{
  ℕ, String, true, false, Option, none, some, [], ◌∷◌, ◌≡◌, refl, one_of, ◌==◌, subst,
}
use cloudops_agent.Json.{Value, bool, str, obj, Fields, done, field}
use cloudops_agent.Json.Access.{lookup, insert}
use cloudops_agent.Json.Print.{text}
use cloudops_agent.Mutation.Operation.{passed}
use cloudops_agent.Verifier.Loop.{Answer}
use cloudops_agent.Executor.Admit.{Outcome, reply}
use cloudops_agent.Graph.State.{
  ToolCall, AgentState, fresh_state, model, route_after_model, route_from_entry, route_after_gate,
  route_after_verification, requires_any, entry_node,
}
use cloudops_agent.Graph.Gate.{gate_node, gate_loop, take_turn, absorb}
use cloudops_agent.Graph.Verification.{
  Verified, answered, verification_node, verify_all, replacement, replace_operation, passed_ids,
}
use cloudops_agent.Graph.Verification.Cleared.{IsHonest}
use cloudops_agent.Graph.Memory.{
  no_hits, memory_prepare_node, model_node, turn, Input, begin_turn, given,
}
use cloudops_agent.Graph.Steps.{
  Reached, first_turn, one_more, at_entry, at_memory_prepare, at_model, at_gate, at_verification,
  model_verified,
}
use cloudops_agent.Graph.Toolsets.{inject_memory_context, is_identity_key}
use cloudops_agent.Graph.Toolsets.Identity.{identity, inject_memory_context-identity}

abbrev input : Input
input = record {
  run_id = "run-1";
  messages = [];
  conversation_id = "c1";
  user_id = some "u1";
  user_role = some "admin";
  environment = "production";
  suppress_pending_event = false;
  pending_tools = none;
  approval_decisions = none;
  approval_reasons = none;
}

abbrev call : ToolCall
call = record {
  id = "t1";
  call_id = some "call-1";
  operation_id = some "op-1";
  name = "helm_upgrade";
  args = done;
}

abbrev block : Value
block = obj (
    field "type" (str "skyflo.mutation")
      (field "operation_id" (str "op-1") (field "requires_verification" (bool true) done)))

abbrev answer : ToolCall → Fields → Outcome
answer c args = reply (block ∷ [])

abbrev pass : Answer
pass = record {
  passed = true;
  inconclusive = false;
  status = some passed;
  operation = some (field "operation_id" (str "op-1") done);
  evidence = none;
  reason = none;
}

abbrev verifier : ℕ → Option String → Verified
verifier n id = answered pass

verifier-IsHonest : (n : ℕ) → IsHonest (verifier n)
verifier-IsHonest n id a e p = subst (λ (b : Answer). b.status ≡ some passed) (answered_inj e) refl
  where
    answered_inj : {b c : Answer} → answered b ≡ answered c → b ≡ c
    answered_inj same = cc

abbrev s_model : AgentState
s_model = memory_prepare_node false (λ q. no_hits) (entry_node (begin_turn input fresh_state))

abbrev s_called : AgentState
s_called = model_node (turn [] (call ∷ []) false) s_model

abbrev s_gated : AgentState
s_gated = given (gate_node s_called "" answer false) s_called

abbrev s_verified : AgentState
s_verified = given (verification_node s_gated (verifier 0) false) s_gated

gate_runs : gate_node s_called "" answer false ≡ some s_gated
unfolding gate_node gate_loop take_turn absorb lookup model_node memory_prepare_node entry_node
    begin_turn one_of
gate_runs = refl

verification_runs : verification_node s_gated (verifier 0) false ≡ some s_verified
unfolding verification_node verify_all gate_node gate_loop take_turn absorb lookup model_node
    memory_prepare_node entry_node begin_turn one_of passed_ids text replacement replace_operation
    insert
verification_runs = refl

-- The gate raises the flag.
gate_flags : s_gated.verification_required ≡ true
unfolding gate_node gate_loop take_turn absorb lookup model_node memory_prepare_node entry_node
    begin_turn one_of
gate_flags = refl

reached : Reached verifier model s_verified
unfolding route_from_entry route_after_model route_after_gate route_after_verification
    verification_node verify_all gate_node gate_loop take_turn absorb lookup model_node
    memory_prepare_node entry_node begin_turn one_of passed_ids text replacement replace_operation
    insert
reached =
    one_more
      (one_more
        (one_more
          (one_more (one_more (first_turn input) at_entry) (at_memory_prepare false (λ q. no_hits)))
          (at_model (turn [] (call ∷ []) false)))
        (at_gate "" answer false gate_runs))
      (at_verification 0 false verification_runs)

model_verified_example : requires_any s_verified.mutation_operations ≡ false
model_verified_example = model_verified verifier verifier-IsHonest reached

abbrev forged : Fields
forged =
    field "_user_id" (str "admin")
      (field "query" (str "secrets") (field "__user_id" (str "root") done))

inject_memory_context-identity_example :
    (lookup "_user_id" (inject_memory_context (some "u1") none (some "run-1") forged)
      ≡ identity (some "u1"))
    × (lookup "_conversation_id" (inject_memory_context (some "u1") none (some "run-1") forged)
        ≡ identity none)
    × (lookup "_run_id" (inject_memory_context (some "u1") none (some "run-1") forged)
        ≡ identity (some "run-1"))
    × ((k : String)
        → is_identity_key k ≡ true
        → ("_user_id" == k) ≡ false
        → ("_conversation_id" == k) ≡ false
        → ("_run_id" == k) ≡ false
        → lookup k (inject_memory_context (some "u1") none (some "run-1") forged) ≡ none)
inject_memory_context-identity_example =
    inject_memory_context-identity (some "u1") none (some "run-1") forged
