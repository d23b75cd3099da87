-- ===== src/Graph/Verification/Cleared.antt =====
-- engine/src/api/agent/graph.py: what the verification node clears.
use cloudops_agent.Prelude.{
  String, Bool, true, false, not, ◌&&◌, ◌||◌, Option, none, some, List, [], ◌∷◌, ◌++◌, ◌≡◌, refl,
  arith, inl, inr, Bool-cases, filter, any, all, one_of, some_inj, subst, sym, ap, ◌∙◌, eq_refl,
  eq_iff, if◌then◌else◌, >>=-eq-some,
}
use cloudops_agent.Json.{Fields}
use cloudops_agent.Json.Access.{lookup-insert}
use cloudops_agent.Mutation.Operation.{passed}
use cloudops_agent.Verifier.Loop.{Answer}
use cloudops_agent.Graph.State.{AgentState, requires_verification, requires_any}
use cloudops_agent.Graph.Gate.{operation_id_of, same_id}
use cloudops_agent.Graph.Gate.Flags.{Flags}
use cloudops_agent.Graph.Verification.{
  Verified, answered, errored, interrupted, result_of, runtime_error, replacement,
  replace_operation, verify_all, all_passed, passed_ids, concluded, verification_node,
  verification_of,
}

-- The operation is among those that are to be verified, by its identifier.
abbrev listed : List Fields → Fields → Bool
listed items op = any (λ i. same_id (operation_id_of op) (operation_id_of i)) items

-- Every operation that requires a verification is listed.
abbrev Covered : List Fields → List Fields → Type 0
Covered items operations =
    all (λ op. not (requires_verification op) || listed items op) operations ≡ true

same_id_refl : (id : Option String) → same_id id id ≡ true
same_id_refl none = refl
same_id_refl (some s) = eq_refl s

same_id-eq : (a b : Option String) → same_id a b ≡ true → a ≡ b
same_id-eq none none h = refl
same_id-eq none (some t) h = cc
same_id-eq (some s) none h = cc
same_id-eq (some s) (some t) h = ap some ((eq_iff s t).0 h)

Covered-weaken :
    (i : Fields) (items operations : List Fields)
    → Covered items operations
    → Covered (i ∷ items) operations
Covered-weaken i items [] h = refl
Covered-weaken i items (op ∷ operations) h = ground (arith, Covered-weaken i items operations)

filter-requires :
    (op : Fields) (operations : List Fields) (b : Bool)
    → requires_verification op ≡ b
    → filter requires_verification (op ∷ operations) ≡ (
        if b
        then op ∷ filter requires_verification operations
        else filter requires_verification operations)
filter-requires op operations b e = rw e refl

Covered-step :
    (op : Fields) (items operations : List Fields) (b : Bool)
    → requires_verification op ≡ b
    → Covered items operations
    → Covered (if b then op ∷ items else items) (op ∷ operations)
Covered-step op items operations true e h =
    let weak = Covered-weaken op items operations h in
    rw (e, same_id_refl (operation_id_of op)) weak
Covered-step op items operations false e h = rw e h

Covered-filter :
    (operations : List Fields) → Covered (filter requires_verification operations) operations
Covered-filter [] = refl
Covered-filter (op ∷ operations) =
    subst (λ items. Covered items (op ∷ operations)) (sym (filter-requires op operations _ refl))
      (Covered-step op _ operations _ refl (Covered-filter operations))

Covered-none : (operations : List Fields) → Covered [] operations → requires_any operations ≡ false
Covered-none [] h = refl
Covered-none (op ∷ operations) h = ground (arith, Covered-none operations)

-- An operation whose verification has passed is replaced by one that requires none.
replacement-passed :
    (item : Fields) (a : Answer)
    → a.status ≡ some passed
    → requires_verification (replacement item a) ≡ false
unfolding replacement one_of
replacement-passed item a h = rw (lookup-insert, h) refl

replace_operation-Covered :
    (item new : Fields) (items operations : List Fields)
    → requires_verification new ≡ false
    → Covered (item ∷ items) operations
    → Covered items (replace_operation (operation_id_of item) new operations)
unfolding replace_operation
replace_operation-Covered item new items [] n h = refl
replace_operation-Covered item new items (op ∷ operations) n h =
    elim (Bool-cases (same_id (operation_id_of op) (operation_id_of item))) [
      | inl e ↦ rw (e, n) (replace_operation-Covered item new items operations n (ground arith))
      | inr e ↦ rw e (ground (arith, replace_operation-Covered item new items operations n))
    ]

all-++ : (p : Answer → Bool) (xs ys : List Answer) → all p (xs ++ ys) ≡ all p xs && all p ys
all-++ p [] ys = refl
all-++ p (x ∷ xs) ys = ground (arith, all-++ p xs ys)

-- What `verify` answers for an operation that passed is the status PASSED.
abbrev pub IsHonest : (Option String → Verified) → Type 0
IsHonest verify =
    (id : Option String) (a : Answer)
    → verify id ≡ answered a
    → a.passed ≡ true
    → a.status ≡ some passed

abbrev StateFlags : AgentState → Type 0
StateFlags u = Flags u.mutation_operations u.verification_required

module _ (verify : Option String → Verified) (honest : IsHonest verify) where
  result_of-passed :
      (id : Option String) (v : Verified) (a : Answer)
      → verify id ≡ v
      → result_of id v ≡ some a
      → a.passed ≡ true
      → a.status ≡ some passed
  result_of-passed id (answered b) a e r p = honest id a (e ∙ ap answered (some_inj r)) p
  result_of-passed id (errored name) a e r p = absurd_pass (some_inj r) p
    where
      absurd_pass : runtime_error id name ≡ a → a.passed ≡ true → a.status ≡ some passed
      absurd_pass same q = cc
  result_of-passed id interrupted a e r p = cc

  verify_all-Covered :
      (items : List Fields) (evidence : List Answer) (operations : List Fields)
      (evidence' : List Answer) (operations' : List Fields)
      → verify_all verify items (evidence, operations) ≡ some (evidence', operations')
      → all_passed evidence' ≡ true
      → (all_passed evidence ≡ true) × (Covered items operations → Covered [] operations')
  unfolding verify_all
  verify_all-Covered [] evidence operations evidence' operations' h p = (
    subst (λ e. all_passed e ≡ true)
        (sym (ap (λ (q : List Answer × List Fields). q.0) (some_inj h))) p,
    subst (Covered []) (ap (λ (q : List Answer × List Fields). q.1) (some_inj h)),
  )
  verify_all-Covered (item ∷ items) evidence operations evidence' operations' h p =
      let (a, e, rest) =
        >>=-eq-some (result_of (operation_id_of item) (verify (operation_id_of item))) _ h in
      let (all_of, covered) =
        verify_all-Covered items (evidence ++ a ∷ [])
          (replace_operation (operation_id_of item) (replacement item a) operations) evidence'
          operations' rest p in
      let split : all_passed evidence && all_passed (a ∷ []) ≡ true =
        sym (all-++ (λ (b : Answer). b.passed) evidence (a ∷ [])) ∙ all_of in
      let status = result_of-passed (operation_id_of item) _ a refl e (ground arith) in
      (
        ground arith,
        λ c. covered (
            replace_operation-Covered item (replacement item a) items operations
              (replacement-passed item a status) c),
      )

  module _ (s : AgentState) where
    concluded-Flags :
        (evidence : List Answer) (operations : List Fields) (s' : AgentState)
        → (all_passed evidence ≡ true → requires_any operations ≡ false)
        → concluded s verify (evidence, operations) ≡ some s'
        → Flags s'.mutation_operations s'.verification_required
    concluded-Flags evidence operations s' clear h = elim (Bool-cases (all_passed evidence)) [
      | inl p ↦
          let (ids, known, same) = >>=-eq-some (passed_ids evidence) _ (rw p at h) in
          subst StateFlags (some_inj same) (λ r. absurd_flag (sym r ∙ clear p))
      | inr p ↦ subst StateFlags (some_inj (rw p at h)) (λ r. r)
    ]
      where
        absurd_flag : {b : Bool} → true ≡ false → b ≡ true
        absurd_flag clash = cc

    verification_of-Flags :
        (items : List Fields) (s' : AgentState)
        → filter requires_verification s.mutation_operations ≡ items
        → verification_of s verify items ≡ some s'
        → StateFlags s'
    verification_of-Flags [] s' e h =
        let clear = Covered-none s.mutation_operations (
          subst (λ items. Covered items s.mutation_operations) e
            (Covered-filter s.mutation_operations)) in
        subst StateFlags (some_inj h) (λ r. sym clear ∙ r)
    verification_of-Flags (item ∷ items) s' e h =
        let ((evidence, operations), loop, ended) =
          >>=-eq-some (verify_all verify (item ∷ items) ([], s.mutation_operations)) _ h in
        concluded-Flags evidence operations s'
          (λ p. Covered-none operations (
            (verify_all-Covered (item ∷ items) [] s.mutation_operations evidence operations loop
                p).1
              (subst (λ is. Covered is s.mutation_operations) e
                (Covered-filter s.mutation_operations))))
          ended

    -- After the verification node, operations that are still to be verified raise the flag.
    pub verification_node-Flags :
        (stop_requested : Bool) (s' : AgentState)
        → verification_node s verify stop_requested ≡ some s'
        → Flags s'.mutation_operations s'.verification_required
    unfolding verification_node
    verification_node-Flags true s' h = cc
    verification_node-Flags false s' h = verification_of-Flags _ s' refl h
