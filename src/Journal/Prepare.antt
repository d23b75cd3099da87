-- ===== src/Journal/Prepare.antt =====
-- engine/src/api/services/mutation_journal.py: `prepare`, with other workers between its query and its
-- insertion.
use cloudops_agent.Prelude.{
  String, Bool, true, false, Option, none, some, ◌≡◌, refl, sym, ap, ◌∙◌, eq_refl, arith, [], ◌∷◌,
  ◌++◌, ◌⊎◌, inl, inr, Bool-cases, Option-cases, ◌==◌,
}
use cloudops_agent.Json.{Fields, obj, str}
use cloudops_agent.Settings.{Settings}
use cloudops_agent.Mutation.Canonical.{hmac_fingerprint}
use cloudops_agent.Mutation.Manifest.{Yaml}
use cloudops_agent.Mutation.Operation.{MutationOperation}
use cloudops_agent.Policy.{MutationPolicyDecision}
use cloudops_agent.Journal.Rows.{Clock}
use cloudops_agent.Journal.Table.{
  Table, Context, Result, ok, find_row, first_where, claims, same_intent, reuse, reuse_found,
  create_or_reuse, new_operation, prepare, key_or, value_of,
}

pub first_where-find_row :
    (id key : String) (t : Table) → first_where (claims id key) t ≡ none → find_row id t ≡ none
unfolding first_where find_row
first_where-find_row id key [] h = refl
first_where-find_row id key (op ∷ t) h = ground (arith, first_where-find_row id key t)

first_where-some :
    (p : MutationOperation → Bool) (t : Table) (op : MutationOperation)
    → first_where p t ≡ some op
    → p op ≡ true
unfolding first_where
first_where-some p [] op h = cc
first_where-some p (o ∷ t) op h = elim (Bool-cases (p o)) [
  | inl e ↦ ground arith
  | inr e ↦ first_where-some p t op (rw e at h)
]

reuse-intent :
    (tool_name args_hmac : String) (o op : MutationOperation) (created : Bool)
    → reuse tool_name args_hmac o ≡ ok (op, created)
    → (op ≡ o) × (created ≡ false) × (same_intent tool_name args_hmac op ≡ true)
unfolding reuse
reuse-intent tool_name args_hmac o op created h = ground arith

reuse_found-intent :
    (tool_name args_hmac : String) (found : Option MutationOperation) (op : MutationOperation)
    (created : Bool)
    → reuse_found tool_name args_hmac found ≡ ok (op, created)
    → (found ≡ some op) × (created ≡ false) × (same_intent tool_name args_hmac op ≡ true)
reuse_found-intent tool_name args_hmac none op created h = cc
reuse_found-intent tool_name args_hmac (some o) op created h =
    let (same, old, intent) = reuse-intent tool_name args_hmac o op created h in
    (ap some (sym same), old, intent)

ok_parts :
    {a b : MutationOperation} {c d : Bool}
    → ◌≡◌ {A = Result (MutationOperation × Bool)} (ok (a, c)) (ok (b, d))
    → (b ≡ a) × (d ≡ c)
ok_parts h = (cc, cc)

claims_of_key :
    (id key : String) (op : MutationOperation)
    → (op.idempotency_key == key) ≡ true
    → claims id key op ≡ true
claims_of_key id key op h = ground arith

abbrev pub args_hmac_of : Settings → (String → String → String) → String → Fields → String
args_hmac_of settings digest tool_name args =
    hmac_fingerprint digest settings.internal_api_key (str tool_name ∷ obj args ∷ [])

abbrev pub key_of :
    Settings → (String → String → String) → String → String → Fields → Context → String
key_of settings digest call_id tool_name args context = key_or context.idempotency_key (
    hmac_fingerprint digest settings.internal_api_key
      (value_of context.conversation_id ∷ str call_id ∷ str tool_name ∷ obj args ∷ []))

module _ (settings : Settings) (yaml : Yaml) (digest : String → String → String) (clock : Clock)
    (meanwhile : Table → Table) (id run_id call_id tool_name : String) (args : Fields)
    (context : Context) (policy : MutationPolicyDecision) (plan : Fields) (t : Table) where
  abbrev hmac : String
  hmac = args_hmac_of settings digest tool_name args

  abbrev key : String
  key = key_of settings digest call_id tool_name args context

  abbrev pub fresh : MutationOperation
  fresh =
      new_operation settings yaml digest clock id key run_id call_id tool_name args context policy
        plan hmac

  abbrev pub prepared : Result (MutationOperation × Bool) × Table
  prepared =
      prepare settings yaml digest clock meanwhile id run_id call_id tool_name args context policy
        plan t

  fresh-intent : same_intent tool_name hmac fresh ≡ true
  unfolding new_operation
  fresh-intent = rw (eq_refl tool_name, eq_refl hmac) refl

  -- The fresh row is appended, or the call writes nothing.
  pub data Written : Type 0 where
    kept : prepared.1 ≡ t → Written
    kept_meanwhile : prepared.1 ≡ meanwhile t → Written
    appended :
        first_where (claims id key) (meanwhile t) ≡ none
        → prepared.1 ≡ meanwhile t ++ fresh ∷ []
        → Written

  pub prepare-Written : Written
  unfolding prepare create_or_reuse new_operation
  prepare-Written = elim (Option-cases (first_where (claims id key) t)) [
    | inr (op, e) ↦ kept (rw e refl)
    | inl e ↦ elim (Option-cases (first_where (claims id key) (meanwhile t))) [
      | inr (op, e') ↦ kept_meanwhile (rw (e, e') refl)
      | inl e' ↦ appended e' (rw (e, e') refl)
    ]
  ]

  -- Whatever other workers do in between, an operation that `prepare` returns is for the tool and the
  -- fingerprint of the arguments that were asked for. Either it is reported as created, it is the
  -- fresh row, and no row of the table held its identifier or its key; or it is reported as not
  -- created, and it is a row with the identifier or the key that were asked for.
  pub prepare-intent :
      (op : MutationOperation) (created : Bool)
      → prepared.0 ≡ ok (op, created)
      → (same_intent tool_name hmac op ≡ true)
        × ((created ≡ true) × (op ≡ fresh) × (first_where (claims id key) (meanwhile t) ≡ none)
            ⊎ (created ≡ false) × (claims id key op ≡ true))
  unfolding prepare create_or_reuse new_operation
  prepare-intent op created h = elim (Option-cases (first_where (claims id key) t)) [
    | inr (o, e) ↦
        let (same, old, intent) = reuse-intent tool_name hmac o op created (rw e at h) in
        (intent, inr (old, first_where-some (claims id key) t op (e ∙ ap some (sym same))))
    | inl e ↦ elim (Option-cases (first_where (claims id key) (meanwhile t))) [
      | inr (o, e') ↦
          let (found, old, intent) =
            reuse_found-intent tool_name hmac
              (first_where (λ r. r.idempotency_key == key) (meanwhile t)) op created
              (rw (e, e') at h) in
          (
            intent,
            inr (
              old,
              claims_of_key id key op
                  (first_where-some (λ r. r.idempotency_key == key) (meanwhile t) op found),
            ),
          )
      | inl e' ↦
          let (same, new) = ok_parts (rw (e, e') at h) in
          (ap (same_intent tool_name hmac) same ∙ fresh-intent, inl (new, same, e'))
    ]
  ]
