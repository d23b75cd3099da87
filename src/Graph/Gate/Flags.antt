-- ===== src/Graph/Gate/Flags.antt =====
-- engine/src/api/agent/graph.py: the flag that makes a session verify follows its operations through
-- the gate.
use cloudops_agent.Prelude.{
  String, Bool, true, false, not, ◌||◌, Option, none, some, List, [], ◌∷◌, ◌++◌, ◌≡◌, refl, arith,
  inl, inr, Bool-cases, ◌==◌, filter, any, some_inj, subst,
}
use cloudops_agent.Json.{Value, Fields}
use cloudops_agent.Json.Access.{fields_of}
use cloudops_agent.Executor.Admit.{Outcome, reply, approval_pending, cancelled_error}
use cloudops_agent.Graph.State.{ToolCall, AgentState, requires_verification, requires_any}
use cloudops_agent.Graph.Toolsets.{handle_load_toolset}
use cloudops_agent.Graph.Gate.{
  Gate, GateEnd, paused, passed_all, interrupted, Turn, go_on, pause, cancel, absorb, add_operation,
  add_message, load_into, receive, take_turn, gate_loop, gate_start, gate_end, gate_node, is_type,
  operation_id_of, same_id, gate_tools,
}

-- Operations that are to be verified raise the flag.
abbrev pub Flags : List Fields → Bool → Type 0
Flags operations flag = requires_any operations ≡ true → flag ≡ true

any-++ : (p : Fields → Bool) (xs ys : List Fields) → any p (xs ++ ys) ≡ any p xs || any p ys
any-++ p [] ys = refl
any-++ p (x ∷ xs) ys = ground (arith, any-++ p xs ys)

any-filter : (p q : Fields → Bool) (xs : List Fields) → any p (filter q xs) ≡ true → any p xs ≡ true
any-filter p q [] h = h
any-filter p q (x ∷ xs) h = ground (arith, any-filter p q xs)

add_operation-Flags :
    (block : Fields) (g : Gate)
    → Flags g.operations g.required
    → Flags (add_operation block g).operations (add_operation block g).required
add_operation-Flags block g h e = ground (
  arith,
  any-++ requires_verification
      (filter (λ item. not (same_id (operation_id_of item) (operation_id_of block))) g.operations)
      (block ∷ []),
  any-filter requires_verification
      (λ item. not (same_id (operation_id_of item) (operation_id_of block))) g.operations,
  h,
)

absorb-Flags :
    (blocks : List Value) (content : String) (g : Gate)
    → Flags g.operations g.required
    → Flags (absorb blocks content g).1.operations (absorb blocks content g).1.required
unfolding absorb
absorb-Flags [] content g h = h
absorb-Flags (v ∷ blocks) content g h =
    elim (Bool-cases (is_type "skyflo.mutation" (fields_of v))) [
      | inl e ↦ rw e (
          absorb-Flags blocks content (add_operation (fields_of v) g)
            (add_operation-Flags (fields_of v) g h))
      | inr e ↦ rw e (absorb-Flags blocks _ g h)
    ]

go_on_inj : {a b : Gate} → go_on a ≡ go_on b → a ≡ b
go_on_inj same = cc

abbrev GateFlags : Gate → Type 0
GateFlags g = Flags g.operations g.required

module _ (s : AgentState) (raised : String) (answer : ToolCall → Fields → Outcome) where
  load_into-Flags :
      (c : ToolCall) (o : Option (String × List (String × Bool))) (g : Gate)
      → GateFlags g
      → GateFlags (load_into s raised answer c o g)
  load_into-Flags c none g h = h
  load_into-Flags c (some (content, loaded)) g h = h

  receive-Flags :
      (c : ToolCall) (o : Outcome) (g g' : Gate)
      → GateFlags g
      → receive s raised answer c o g ≡ go_on g'
      → GateFlags g'
  receive-Flags c (reply blocks) g g' h e =
      let kept : GateFlags (add_message c (absorb blocks "" g).0 (absorb blocks "" g).1) =
        absorb-Flags blocks "" g h in
      subst GateFlags (go_on_inj e) kept
  receive-Flags c approval_pending g g' h e = cc
  receive-Flags c cancelled_error g g' h e = cc

  take_turn-Flags :
      (c : ToolCall) (g g' : Gate)
      → GateFlags g
      → take_turn s raised answer c g ≡ go_on g'
      → GateFlags g'
  unfolding take_turn
  take_turn-Flags c g g' h e = elim (Bool-cases (c.name == "load_toolset")) [
    | inl loads ↦
        subst GateFlags (go_on_inj (rw loads at e))
          (load_into-Flags c (handle_load_toolset c.args g.loaded) g h)
    | inr calls ↦ receive-Flags c _ g g' h (rw calls at e)
  ]

  -- What the loop ends with has the flag.
  abbrev EndFlags : GateEnd → Type 0
  EndFlags (paused cs g) = GateFlags g
  EndFlags (passed_all g) = GateFlags g
  EndFlags interrupted = Unit

  gate_loop-Flags :
      (cs : List ToolCall) (g : Gate) → GateFlags g → EndFlags (gate_loop s raised answer cs g)
  unfolding gate_loop
  gate_loop-Flags [] g h = h
  gate_loop-Flags (c ∷ cs) g h =
      by_turn (λ g' e. gate_loop-Flags cs g' (take_turn-Flags c g g' h e))
        (take_turn s raised answer c g) refl
    where
      by_turn :
          ((g' : Gate)
            → take_turn s raised answer c g ≡ go_on g'
            → EndFlags (gate_loop s raised answer cs g'))
          → (turn : Turn) → take_turn s raised answer c g ≡ turn
          → EndFlags (elim turn [
            | go_on g' ↦ gate_loop s raised answer cs g'
            | pause ↦ paused (c ∷ cs) g
            | cancel ↦ interrupted
          ])
      by_turn rest (go_on g') e = rest g' e
      by_turn rest pause e = h
      by_turn rest cancel e = tt

  abbrev StateFlags : AgentState → Type 0
  StateFlags u = Flags u.mutation_operations u.verification_required

  gate_end-Flags :
      (end : GateEnd) (s' : AgentState)
      → EndFlags end
      → gate_end s raised answer end ≡ some s'
      → StateFlags s'
  gate_end-Flags (paused cs g) s' h e = subst StateFlags (some_inj e) h
  gate_end-Flags (passed_all g) s' h e = subst StateFlags (some_inj e) h
  gate_end-Flags interrupted s' h e = cc

  gate_tools-Flags :
      (cs : List ToolCall) (s' : AgentState)
      → StateFlags s
      → gate_tools s raised answer cs ≡ some s'
      → StateFlags s'
  gate_tools-Flags [] s' h e = subst StateFlags (some_inj e) h
  gate_tools-Flags (c ∷ cs) s' h e =
      gate_end-Flags (gate_loop s raised answer (c ∷ cs) (gate_start s raised answer)) s'
        (gate_loop-Flags (c ∷ cs) (gate_start s raised answer) (λ required. required)) e

  -- The gate keeps the flag, or rebuilds it.
  pub gate_node-Flags :
      (stop_requested : Bool) (s' : AgentState)
      → Flags s.mutation_operations s.verification_required
      → gate_node s raised answer stop_requested ≡ some s'
      → Flags s'.mutation_operations s'.verification_required
  unfolding gate_node
  gate_node-Flags true s' h e = subst StateFlags (some_inj e) h
  gate_node-Flags false s' h e = gate_tools-Flags s.pending_tools s' h e
