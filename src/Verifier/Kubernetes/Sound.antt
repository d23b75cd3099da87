-- ===== src/Verifier/Kubernetes/Sound.antt =====
-- engine/src/api/services/mutation_verifier.py: when `_verify_kubernetes` passes.
use cloudops_agent.Prelude.{
  ℕ, suc, subst, sym, Option, String, Bool, true, false, ◌&&◌, some, List, [], ◌∷◌, ◌≡◌, refl,
  arith, ap, ◌∙◌, >>=-eq-some, some_inj,
}
use cloudops_agent.Json.{Value, obj, Fields}
use cloudops_agent.Json.Access.{get}
use cloudops_agent.Mutation.Operation.{MutationOperation}
use cloudops_agent.Policy.{is_nil}
use cloudops_agent.Verifier.Health.{dict_of, dict_item, workload_health, Health}
use cloudops_agent.Verifier.Kubernetes.{
  target_args, read_target, targets_of_plan, Read, refused, invalid, found, Progress, start,
  operation_marker_matches, desired_marker_matches, desired_matches, committed, observe_one,
  observe_found, observe_health, observe, verify_kubernetes,
}

-- The n-th call read a target of the plan as a resource that carries both markers of the operation,
-- contains the target's desired spec and is healthy.
pub record IsVerified (op : MutationOperation) (loads : String → Option Value)
    (call : ℕ → String → Fields → Fields) (n : ℕ) (v : Value) : Type 0 where
  pub target : Fields
  pub args : Fields
  pub resource : Fields
  pub metadata : Fields
  pub annotations : Fields
  pub terminal : Bool
  pub detail : String
  pub is_target : v ≡ obj target
  pub has_args : target_args target ≡ some args
  pub read : read_target op loads call n args ≡ found (obj resource)
  pub has_metadata : dict_of (get "metadata" resource) ≡ some metadata
  pub has_annotations : dict_of (get "annotations" metadata) ≡ some annotations
  pub marked : operation_marker_matches op annotations ≡ true
  pub state_marked : desired_marker_matches op annotations ≡ true
  pub matches : desired_matches op target resource ≡ true
  pub healthy : workload_health resource ≡ some (true, terminal, detail)

pub dict_item-obj : (v : Value) (resource : Fields) → dict_item v ≡ some resource → v ≡ obj resource
dict_item-obj v resource h = ground arith

pub health_parts :
    (health : Health) → health.0 ≡ true → some health ≡ some (true, health.1, health.2)
health_parts (healthy, terminal, detail) h = cc

module _ (op : MutationOperation) where
  observe_health-passed :
      (target resource metadata annotations : Fields) (health : Health) (p q : Progress)
      → observe_health op target resource metadata annotations health p ≡ q
      → q.all_passed ≡ true
      → (p.all_passed ≡ true)
        × (operation_marker_matches op annotations ≡ true)
        × (desired_marker_matches op annotations ≡ true)
        × (desired_matches op target resource ≡ true)
        × (health.0 ≡ true)
  observe_health-passed target resource metadata annotations (healthy, terminal, detail) p q h
        passed =
      let all : (p.all_passed && (committed op target resource annotations && healthy)) ≡ true =
        ap (λ (r : Progress). r.all_passed) h ∙ passed in
      (ground arith, ground arith, ground arith, ground arith, ground arith)

  module _ (loads : String → Option Value) (call : ℕ → String → Fields → Fields) where
    abbrev pub AllVerified : ℕ → List Value → Type 0
    AllVerified n [] = Unit
    AllVerified n (v ∷ vs) = IsVerified op loads call n v × AllVerified (suc n) vs

    some_target :
        (targets : List Value) (p : Progress)
        → observe op loads call 0 targets start ≡ some p
        → is_nil p.evidence ≡ false
        → is_nil targets ≡ false
    unfolding observe
    some_target [] p e evident = ground arith
    some_target (v ∷ vs) p e evident = refl

    observe_found-IsVerified :
        (n : ℕ) (target args : Fields) (v : Value) (p q : Progress)
        → target_args target ≡ some args
        → read_target op loads call n args ≡ found v
        → observe_found op target v p ≡ some q
        → q.all_passed ≡ true
        → (p.all_passed ≡ true) × IsVerified op loads call n (obj target)
    unfolding observe_found
    observe_found-IsVerified n target args v p q has reads h passed =
        let (resource, e1, h1) = >>=-eq-some (dict_item v) _ h in
        let (metadata, e2, h2) = >>=-eq-some (dict_of (get "metadata" resource)) _ h1 in
        let (annotations, e3, h3) = >>=-eq-some (dict_of (get "annotations" metadata)) _ h2 in
        let (health, e4, h4) = >>=-eq-some (workload_health resource) _ h3 in
        let (before, marked, state_marked, matches, healthy) =
          observe_health-passed target resource metadata annotations health p q (some_inj h4)
            passed in
        (
          before,
          record {
            target = target;
            args = args;
            resource = resource;
            metadata = metadata;
            annotations = annotations;
            terminal = health.1;
            detail = health.2;
            is_target = refl;
            has_args = has;
            read = reads ∙ ap found (dict_item-obj v resource e1);
            has_metadata = e2;
            has_annotations = e3;
            marked = marked;
            state_marked = state_marked;
            matches = matches;
            healthy = e4 ∙ health_parts health healthy;
          },
        )

    observe_one-IsVerified :
        (n : ℕ) (target args : Fields) (read : Read) (p q : Progress)
        → target_args target ≡ some args
        → read_target op loads call n args ≡ read
        → observe_one op target read p ≡ some q
        → q.all_passed ≡ true
        → (p.all_passed ≡ true) × IsVerified op loads call n (obj target)
    observe_one-IsVerified n target args (refused result) p q has reads h passed = ground arith
    observe_one-IsVerified n target args invalid p q has reads h passed = ground arith
    observe_one-IsVerified n target args (found v) p q has reads h passed =
        observe_found-IsVerified n target args v p q has reads h passed

    observe-AllVerified :
        (n : ℕ) (targets : List Value) (p q : Progress)
        → observe op loads call n targets p ≡ some q
        → q.all_passed ≡ true
        → (p.all_passed ≡ true) × AllVerified n targets
    unfolding observe
    observe-AllVerified n [] p q h passed =
        (ap (λ (r : Progress). r.all_passed) (some_inj h) ∙ passed, tt)
    observe-AllVerified n (v ∷ vs) p q h passed =
        let (target, e1, h1) = >>=-eq-some (dict_item v) _ h in
        let (args, e2, h2) = >>=-eq-some (target_args target) _ h1 in
        let (next, e3, h3) =
          >>=-eq-some (observe_one op target (read_target op loads call n args) p) _ h2 in
        let (between, others) = observe-AllVerified (suc n) vs next q h3 passed in
        let (before, this) = observe_one-IsVerified n target args _ p next e2 refl e3 between in
        (
          before,
          (subst (IsVerified op loads call n) (sym (dict_item-obj v target e1)) this, others),
        )

    -- The targets of the operation's plan, of which there is one, are all verified.
    abbrev pub PlanVerified : Type 0
    PlanVerified =
        (targets : List Value) × (targets_of_plan op ≡ some targets)
        × (is_nil targets ≡ false)
        × AllVerified 0 targets

    -- `_verify_kubernetes` reports a passed verification only for an operation whose plan has a target,
    -- and only where every target of the plan was read, by its kind, name and namespace, as a resource
    -- that carries the operation's own marker and its desired-state fingerprint, contains the desired
    -- spec of the target, and is healthy.
    pub verify_kubernetes-IsVerified :
        (terminal : Bool) (result : Fields)
        → verify_kubernetes op loads call ≡ some (true, terminal, result)
        → PlanVerified
    unfolding verify_kubernetes
    verify_kubernetes-IsVerified terminal result h =
        let (targets, planned, h0) = >>=-eq-some (targets_of_plan op) _ h in
        let (p, e, h1) = >>=-eq-some (observe op loads call 0 targets start) _ h0 in
        let passed : p.all_passed ≡ true = ground arith in
        let evident : is_nil p.evidence ≡ false = ground arith in
        (
          targets,
          planned,
          some_target targets p e evident,
          (observe-AllVerified 0 targets start p e passed).1,
        )
