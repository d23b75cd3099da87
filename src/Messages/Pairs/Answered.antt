-- ===== src/Messages/Pairs/Answered.antt =====
-- engine/src/api/utils/sanitization.py: every tool message that is sent answers a call that is sent.
use cloudops_agent.Prelude.{
  String, Bool, true, false, ◌&&◌, Option, none, some, List, [], ◌∷◌, ◌++◌, ◌≡◌, refl, ap, sym,
  subst, ◌∙◌, arith, inl, inr, Bool-cases, eq_iff, ◌==◌, if◌then◌else◌,
}
use cloudops_agent.Json.{Value, null, str, arr, Items, nil, cons, Fields, done, field}
use cloudops_agent.Json.Access.{get, lookup, lookup-insert}
use cloudops_agent.Executor.Jenkins.{pop}
use cloudops_agent.Messages.Window.{has_role, is_text}
use cloudops_agent.Messages.Pairs.{
  call_ids, calls_of, answer_id, valid_tool_call_ids, put_content, with_content, valid_calls,
  with_calls, keeps_answer, sanitize_calls, sanitize_one, add_sent, sanitize_from,
  sanitize_messages_for_openai,
}

abbrev pub ids_of : Option Items → List String
ids_of none = []
ids_of (some calls) = call_ids calls

-- The identifiers of the calls in a message.
abbrev pub sent_ids : Fields → List String
sent_ids m = ids_of (calls_of m)

abbrev pub is_answered : List String → Fields → Bool
is_answered seen m = if has_role "tool" m then keeps_answer seen (answer_id m) else true

-- Every tool message answers a call of a message before it, the calls in `seen` included.
unfoldable pub all_answered : List String → List Fields → Bool
all_answered seen [] = true
all_answered seen (m ∷ ms) = is_answered seen m && all_answered (sent_ids m ++ seen) ms

lookup-pop :
    (k j : String) (d : Fields) → lookup k (pop j d) ≡ (if j == k then none else lookup k d)
unfolding lookup pop
lookup-pop k j done = ground arith
lookup-pop k j (field i v d) = ground (arith, eq_iff i j, eq_iff i k, eq_iff j k, lookup-pop k j d)

get-put_content :
    (k : String) (v : Value) (m : Fields)
    → ("content" == k) ≡ false
    → get k (put_content v m) ≡ get k m
get-put_content k null m h = rw (lookup-insert, h) refl
get-put_content k _ m h = refl

get-with_calls :
    (k : String) (calls : Items) (m : Fields)
    → ("tool_calls" == k) ≡ false
    → get k (with_calls calls m) ≡ get k m
get-with_calls k nil m h = rw (lookup-pop, h) refl
get-with_calls k (cons v xs) m h = rw (lookup-insert, h) refl

abbrev listed : Items → Value
listed nil = null
listed (cons v xs) = arr (cons v xs)

calls-with_calls :
    (calls : Items) (m : Fields) → get "tool_calls" (with_calls calls m) ≡ listed calls
calls-with_calls nil m = rw lookup-pop refl
calls-with_calls (cons v xs) m = rw lookup-insert refl

assistant_is_no_tool : (v : Value) → is_text "assistant" v ≡ true → is_text "tool" v ≡ false
assistant_is_no_tool (str s) h =
    subst (λ (t : String). (t == "tool") ≡ false) (sym ((eq_iff s "assistant").0 h)) refl
assistant_is_no_tool _ h = cc

calls_of-with_content : (m : Fields) → calls_of (with_content m) ≡ calls_of m
calls_of-with_content m =
    rw
      (
        get-put_content "role" (get "content" m) m refl,
        get-put_content "tool_calls" (get "content" m) m refl,
      )
      refl

calls_of-role :
    (m : Fields) (calls : Items) → calls_of m ≡ some calls → has_role "assistant" m ≡ true
calls_of-role m calls h = ground arith

calls_of-listed :
    (m : Fields) (calls : Items)
    → has_role "assistant" m ≡ true
    → get "tool_calls" m ≡ listed calls
    → sent_ids m ≡ call_ids calls
unfolding call_ids
calls_of-listed m nil role e = rw (role, e) refl
calls_of-listed m (cons v xs) role e = rw (role, e) refl

sent_ids-none : (m : Fields) → calls_of m ≡ none → sent_ids m ≡ []
sent_ids-none m h = ap ids_of h

-- One message keeps the answers of those after it.
sanitize_calls-answered :
    (valid seen : List String) (m : Fields) (calls : Option Items) (tail : List Fields)
    → calls_of m ≡ calls
    → all_answered (sanitize_calls valid seen m calls).1 tail ≡ true
    → all_answered seen (add_sent (sanitize_calls valid seen m calls).0 tail) ≡ true
unfolding all_answered
sanitize_calls-answered valid seen m (some calls) tail e h =
    let kept = valid_calls valid calls in
    let role = calls_of-role m calls e in
    let same = get-with_calls "role" kept m refl in
    let assistant = ap (is_text "assistant") same ∙ role in
    let no_tool = ap (is_text "tool") same ∙ assistant_is_no_tool (get "role" m) role in
    let ids = calls_of-listed (with_calls kept m) kept assistant (calls-with_calls kept m) in
    rw (no_tool, ids) h
sanitize_calls-answered valid seen m none tail e h =
    let quiet = sent_ids-none m e in
    elim (Bool-cases (has_role "tool" m)) [
      | inr plain ↦
          let fine : is_answered seen m ≡ true = rw plain refl in
          rw (plain, quiet, fine) (rw plain at h)
      | inl tool ↦ elim (Bool-cases (keeps_answer seen (answer_id m))) [
        | inl keeps ↦
            let fine : is_answered seen m ≡ true = rw tool keeps in
            rw (tool, keeps, quiet, fine) (rw tool at h)
        | inr drops ↦ rw (tool, drops) (rw tool at h)
      ]
    ]

sanitize_from-answered :
    (valid seen : List String) (ms : List Fields)
    → all_answered seen (sanitize_from valid seen ms) ≡ true
unfolding sanitize_from all_answered
sanitize_from-answered valid seen [] = refl
sanitize_from-answered valid seen (m ∷ ms) =
    sanitize_calls-answered valid seen (with_content m) (calls_of m) _ (calls_of-with_content m)
      (sanitize_from-answered valid (sanitize_one valid seen m).1 ms)

-- Every tool message that is sent to the model answers a tool call in a message that is sent before
-- it, whatever the conversation is.
pub sanitize_messages_for_openai-answered :
    (messages : List Fields) → all_answered [] (sanitize_messages_for_openai messages) ≡ true
unfolding sanitize_messages_for_openai
sanitize_messages_for_openai-answered messages =
    sanitize_from-answered (valid_tool_call_ids messages) [] messages
