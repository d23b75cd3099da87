-- ===== src/Policy/Laws.antt =====
-- engine/src/api/services/mutation_policy.py: which mutations the policy allows.
use cloudops_agent.Prelude.{
  String, Bool, true, false, not, ◌&&◌, Option, none, some, ◌≡◌, refl, sym, subst, ◌∙◌, arith,
  false≢true, List, [], ◌∷◌, map, filter, one_of, All, ◌↔◌, ◌⊎◌, inl, inr, Bool-cases, some_inj,
  nat_eq, ◌==◌,
}
use cloudops_agent.Text.{is_empty, lower, strip, rstrip_by}
use cloudops_agent.Json.{Fields}
use cloudops_agent.Json.Access.{get}
use cloudops_agent.Settings.{Settings}
use cloudops_agent.Mutation.Manifest.{Yaml, Target, text_or, parse_manifest_targets}
use cloudops_agent.Policy.{
  MutationPolicyDecision, evaluate, is_nil, sorted_set, insert_text, is_forbidden, forbidden_kinds,
  cluster_mutation_tools, environment_of, or_empty, namespaces_of, resource_type_of,
  allowed_namespaces, check_namespaces, check_user, check_manifest, check_targets, Stage, denied,
  continue, ◌>>=◌, decision_of, deny_if,
}

is_nil-insert_text : (s : String) (xs : List String) → is_nil (insert_text s xs) ≡ false
unfolding insert_text
is_nil-insert_text s [] = refl
is_nil-insert_text s (x ∷ xs) = ground arith

is_nil-sorted_set : (xs : List String) → is_nil (sorted_set xs) ≡ is_nil xs
unfolding sorted_set
is_nil-sorted_set [] = refl
is_nil-sorted_set (x ∷ xs) = is_nil-insert_text x (sorted_set xs)

is_nil-map {ℓ κ} :
    {A : Type ℓ} {B : Type κ} (f : A → B) (xs : List A) → is_nil (map f xs) ≡ is_nil xs
is_nil-map f [] = refl
is_nil-map f (x ∷ xs) = refl

filter_nil_iff {ℓ} :
    {A : Type ℓ} (p : A → Bool) (xs : List A)
    → (is_nil (filter p xs) ≡ true) ↔ All (λ x. p x ≡ false) xs
filter_nil_iff p [] = ((λ _. tt), λ _. refl)
filter_nil_iff p (x ∷ xs) = elim (Bool-cases (p x)) [
  | inl e ↦ ((λ h. cc), λ h. cc)
  | inr e ↦
      ((λ h. (e, (filter_nil_iff p xs).0 (rw e at h))), λ h. rw e ((filter_nil_iff p xs).1 h.1))
]

-- No kind is listed in the denial exactly when no target has a forbidden kind.
no_forbidden_iff :
    (targets : List Target)
    → (is_nil (sorted_set (map (λ (t : Target). t.kind) (filter is_forbidden targets))) ≡ true)
      ↔ All (λ t. is_forbidden t ≡ false) targets
no_forbidden_iff targets = rw (is_nil-sorted_set, is_nil-map) (filter_nil_iff is_forbidden targets)

filter-not_nil_iff {ℓ} :
    {A : Type ℓ} (p : A → Bool) (xs : List A)
    → (is_nil (filter (λ x. not (p x)) xs) ≡ true) ↔ All (λ x. p x ≡ true) xs
filter-not_nil_iff p [] = ((λ _. tt), λ _. refl)
filter-not_nil_iff p (x ∷ xs) = elim (Bool-cases (p x)) [
  | inl e ↦ (
    (λ h. (e, (filter-not_nil_iff p xs).0 (rw e at h))),
    λ h. rw e ((filter-not_nil_iff p xs).1 h.1),
  )
  | inr e ↦ ((λ h. cc), λ h. cc)
]

disallowed_iff :
    (allowed names : List String)
    → (is_nil (sorted_set (filter (λ n. not (one_of allowed n)) names)) ≡ true)
      ↔ All (λ n. one_of allowed n ≡ true) names
disallowed_iff allowed names = rw is_nil-sorted_set (filter-not_nil_iff (one_of allowed) names)

-- A stage that lets the decision be positive has gone on.
decision_of-allowed {ℓ} :
    {A : Type ℓ} (m : Stage A) (f : A → Stage MutationPolicyDecision)
    → ((d : MutationPolicyDecision) → m ≡ denied d → d.allowed ≡ false)
    → (decision_of (m >>= f)).allowed ≡ true
    → (a : A) × (m ≡ continue a) × ((decision_of (f a)).allowed ≡ true)
decision_of-allowed (denied d) f h e = absurd (false≢true (sym (h d refl) ∙ e))
decision_of-allowed (continue a) f h e = (a, refl, e)

deny_if_continues : (b : Bool) (d : MutationPolicyDecision) → deny_if b d ≡ continue tt → b ≡ false
deny_if_continues b d h = ground arith

deny_if_denied :
    (b : Bool) (d e : MutationPolicyDecision)
    → d.allowed ≡ false
    → deny_if b d ≡ denied e
    → e.allowed ≡ false
deny_if_denied b d e h k = ground arith

check_user_iff :
    (user_id user_role : Option String)
    → (check_user user_id user_role ≡ continue tt) ↔ (
        (is_empty (or_empty user_id) ≡ false)
        × (one_of ("admin" ∷ "superuser" ∷ []) (lower (strip (or_empty user_role))) ≡ true))
unfolding check_user
check_user_iff user_id user_role = (λ h. (ground arith, ground arith), λ h. rw (h.0, h.1) refl)

check_user_denied :
    (user_id user_role : Option String) (d : MutationPolicyDecision)
    → check_user user_id user_role ≡ denied d
    → d.allowed ≡ false
unfolding check_user
check_user_denied user_id user_role d h = ground arith

module _ (settings : Settings) (yaml : Yaml) (tool_name : String) (args : Fields) where
  -- The targets that the decision is about: those of the manifest for `k8s_apply`, of which none is
  -- of a forbidden kind, and no list of targets for the other tools.
  abbrev pub TargetsAre : List Target → Type 0
  TargetsAre targets =
      ((tool_name == "k8s_apply") ≡ true)
        × (parse_manifest_targets yaml (text_or (get "content" args) "")
              (text_or (get "namespace" args) "default")
            ≡ some targets)
        × (is_nil targets ≡ false)
        × All (λ t. is_forbidden t ≡ false) targets
      ⊎ ((tool_name == "k8s_apply") ≡ false) × (targets ≡ [])

  check_targets_iff :
      (content : String) (found : Option (List Target)) (targets : List Target)
      → (check_targets settings yaml content found ≡ continue targets) ↔ (
          (found ≡ some targets)
          × (is_nil targets ≡ false)
          × All (λ t. is_forbidden t ≡ false) targets)
  unfolding check_targets
  check_targets_iff content none targets = ((λ h. cc), λ h. cc h.0)
  check_targets_iff content (some ts) targets = (
    (λ h. (ground arith, ground arith, (no_forbidden_iff targets).0 (ground arith))),
    λ h. rw (some_inj h.0, h.1, (no_forbidden_iff targets).1 h.2) refl,
  )

  check_manifest_iff :
      (targets : List Target)
      → (check_manifest settings yaml tool_name args ≡ continue targets) ↔ TargetsAre targets
  unfolding check_manifest
  check_manifest_iff targets = elim (Bool-cases (tool_name == "k8s_apply")) [
    | inl e ↦ (
      (λ h.
          let (found, some_target, allowed_kinds) = (check_targets_iff _ _ targets).0 (rw e at h) in
          inl (e, found, some_target, allowed_kinds)),
      λ h. elim h [
        | inl m ↦ rw e ((check_targets_iff _ _ targets).1 (m.1, m.2, m.3))
        | inr n ↦ cc n.0
      ],
    )
    | inr e ↦
        ((λ h. inr (e, ground arith)), λ h. elim h [ inl m ↦ cc m.0 | inr n ↦ rw (e, n.1) refl ])
  ]

  check_namespaces_iff :
      (targets : List Target)
      → (check_namespaces settings yaml targets args ≡ continue tt)
        ↔ All (λ n. one_of (allowed_namespaces settings) n ≡ true) (namespaces_of targets args)
  unfolding check_namespaces
  check_namespaces_iff targets =
      let law = disallowed_iff (allowed_namespaces settings) (namespaces_of targets args) in
      ((λ h. law.0 (ground arith)), λ h. rw (law.1 h) refl)

  check_manifest_denied :
      (d : MutationPolicyDecision)
      → check_manifest settings yaml tool_name args ≡ denied d
      → d.allowed ≡ false
  unfolding check_manifest check_targets
  check_manifest_denied d h = ground arith

  check_namespaces_denied :
      (targets : List Target) (d : MutationPolicyDecision)
      → check_namespaces settings yaml targets args ≡ denied d
      → d.allowed ≡ false
  unfolding check_namespaces
  check_namespaces_denied targets d h = ground arith

module _ (settings : Settings) (yaml : Yaml) (tool_name : String) (args : Fields)
    (user_id user_role environment : Option String) where
  abbrev pub decision : MutationPolicyDecision
  decision = evaluate settings yaml tool_name args user_id user_role environment

  pub record IsAuthorized (targets : List Target) : Type 0 where
    pub authenticated : is_empty (or_empty user_id) ≡ false
    pub admin : one_of ("admin" ∷ "superuser" ∷ []) (lower (strip (or_empty user_role))) ≡ true
    pub manifest : TargetsAre settings yaml tool_name args targets
    pub resource_type :
        one_of forbidden_kinds (rstrip_by (λ n. nat_eq n b's') (resource_type_of args)) ≡ false
    pub cluster :
        (one_of cluster_mutation_tools tool_name
          && environment_of settings yaml environment == "production")
        ≡ false
    pub namespaces :
        All (λ n. one_of (allowed_namespaces settings) n ≡ true) (namespaces_of targets args)

  evaluate-IsAuthorized : decision.allowed ≡ true → IsAuthorized decision.targets
  unfolding evaluate
  evaluate-IsAuthorized h =
      let (_, user, h1) =
        decision_of-allowed (check_user user_id user_role) _ (check_user_denied user_id user_role)
          h in
      let (ts, found, h2) =
        decision_of-allowed (check_manifest settings yaml tool_name args) _
          (check_manifest_denied settings yaml tool_name args) h1 in
      let (_, kind, h3) = decision_of-allowed (deny_if _ _) _ (λ e. deny_if_denied _ _ e refl) h2 in
      let (_, cluster, h4) =
        decision_of-allowed (deny_if _ _) _ (λ e. deny_if_denied _ _ e refl) h3 in
      let (_, inside, h5) =
        decision_of-allowed (check_namespaces settings yaml ts args) _
          (check_namespaces_denied settings yaml tool_name args ts) h4 in
      let same : ts ≡ decision.targets = rw (user, found, kind, cluster, inside) refl in
      subst IsAuthorized same (record {
        authenticated = ((check_user_iff user_id user_role).0 user).0;
        admin = ((check_user_iff user_id user_role).0 user).1;
        manifest = (check_manifest_iff settings yaml tool_name args ts).0 found;
        resource_type = deny_if_continues _ _ kind;
        cluster = deny_if_continues _ _ cluster;
        namespaces = (check_namespaces_iff settings yaml tool_name args ts).0 inside;
      })

  IsAuthorized-evaluate :
      (targets : List Target)
      → IsAuthorized targets
      → (decision.allowed ≡ true) × (decision.targets ≡ targets)
  unfolding evaluate
  IsAuthorized-evaluate targets a =
      let user = (check_user_iff user_id user_role).1 (a.authenticated, a.admin) in
      let found = (check_manifest_iff settings yaml tool_name args targets).1 a.manifest in
      let inside = (check_namespaces_iff settings yaml tool_name args targets).1 a.namespaces in
      rw (user, found, a.resource_type, a.cluster, inside) (refl, refl)

-- The policy allows a tool call exactly when all of this holds: a user is authenticated with the role
-- admin or superuser; for `k8s_apply` the manifest parses into at least one target and no target is
-- of a forbidden kind; the resource type, less its plural "s", is not forbidden either; no node is
-- cordoned, uncordoned or drained in production; and every namespace that the call is about stands in
-- the allowlist. The decision then carries the manifest's targets.
pub evaluate_iff :
    (settings : Settings) (yaml : Yaml) (tool_name : String) (args : Fields)
    (user_id user_role environment : Option String) (targets : List Target)
    → ((decision settings yaml tool_name args user_id user_role environment).allowed ≡ true)
        × ((decision settings yaml tool_name args user_id user_role environment).targets ≡ targets)
      ↔ IsAuthorized settings yaml tool_name args user_id user_role environment targets
evaluate_iff settings yaml tool args user role env targets = (
  (λ h.
      subst (IsAuthorized settings yaml tool args user role env) h.1
        (evaluate-IsAuthorized settings yaml tool args user role env h.0)),
  IsAuthorized-evaluate settings yaml tool args user role env targets,
)
