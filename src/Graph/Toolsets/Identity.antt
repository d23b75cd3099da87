-- ===== src/Graph/Toolsets/Identity.antt =====
-- engine/src/api/agent/graph.py: whom a memory tool acts for.
use cloudops_agent.Prelude.{
  String, true, false, Option, none, some, ◌≡◌, refl, ◌∙◌, arith, eq_iff, ◌==◌, if◌then◌else◌,
  one_of,
}
use cloudops_agent.Text.{is_empty}
use cloudops_agent.Json.{Value, str, Fields, done, field}
use cloudops_agent.Json.Access.{lookup, lookup-insert}
use cloudops_agent.Graph.Toolsets.{
  is_identity_key, without_identity, insert_identity, inject_memory_context,
}

-- The state's value of an identity, as the tool gets it.
abbrev pub identity : Option String → Option Value
identity none = none
identity (some s) = if is_empty s then none else some (str s)

lookup-without_identity :
    (k : String) (d : Fields) → is_identity_key k ≡ true → lookup k (without_identity d) ≡ none
unfolding without_identity lookup
lookup-without_identity k done h = refl
lookup-without_identity k (field j v d) h = ground (arith, eq_iff j k, lookup-without_identity k d)

abbrev or_kept : Option Value → Option Value → Option Value
or_kept none old = old
or_kept (some v) old = some v

lookup-insert_identity :
    (k j : String) (o : Option String) (d : Fields)
    → lookup k (insert_identity j o d)
      ≡ (if j == k then or_kept (identity o) (lookup k d) else lookup k d)
unfolding insert_identity
lookup-insert_identity k j none d = ground arith
lookup-insert_identity k j (some s) d = ground (arith, lookup-insert j k (str s) d)

module _ (user_id conversation_id run_id : Option String) (args : Fields) where
  abbrev injected : Fields
  injected = inject_memory_context user_id conversation_id run_id args

  lookup-inject :
      (k : String)
      → is_identity_key k ≡ true
      → lookup k injected ≡ (
          if "_run_id" == k
          then or_kept (identity run_id) (
              if "_conversation_id" == k
              then or_kept
                  (identity conversation_id)
                  (if "_user_id" == k then or_kept (identity user_id) none else none)
              else if "_user_id" == k
              then or_kept (identity user_id) none
              else none)
          else if "_conversation_id" == k
          then or_kept
              (identity conversation_id)
              (if "_user_id" == k then or_kept (identity user_id) none else none)
          else if "_user_id" == k
          then or_kept (identity user_id) none
          else none)
  unfolding inject_memory_context
  lookup-inject k h =
      rw
        (
          lookup-insert_identity k "_run_id",
          lookup-insert_identity k "_conversation_id",
          lookup-insert_identity k "_user_id",
          lookup-without_identity k args h,
        )
        refl

  kept_none : (o : Option Value) → or_kept o none ≡ o
  kept_none none = refl
  kept_none (some v) = refl

  -- A memory tool acts for the user, in the conversation and in the run of the session, whatever
  -- arguments the model has given it: each of the three keys that the engine owns has the session's
  -- value, or is missing where the session has none, and no other spelling of them is left.
  pub inject_memory_context-identity :
      (lookup "_user_id" injected ≡ identity user_id)
      × (lookup "_conversation_id" injected ≡ identity conversation_id)
      × (lookup "_run_id" injected ≡ identity run_id)
      × ((k : String)
          → is_identity_key k ≡ true
          → ("_user_id" == k) ≡ false
          → ("_conversation_id" == k) ≡ false
          → ("_run_id" == k) ≡ false
          → lookup k injected ≡ none)
  unfolding is_identity_key one_of
  inject_memory_context-identity = (
    lookup-inject "_user_id" refl ∙ kept_none (identity user_id),
    lookup-inject "_conversation_id" refl ∙ kept_none (identity conversation_id),
    lookup-inject "_run_id" refl ∙ kept_none (identity run_id),
    λ k h user conversation run. lookup-inject k h ∙ rw (run, conversation, user) refl,
  )
