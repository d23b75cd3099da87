-- ===== src/Verifier/Health/Verdicts.antt =====
-- engine/src/api/services/mutation_verifier.py: what a verdict on a workload's health implies.
use cloudops_agent.Prelude.{
  String, Bool, true, false, ◌&&◌, Option, some, [], ◌∷◌, ◌≡◌, refl, arith, ap, sym, ◌∙◌,
  >>=-eq-some, some_inj, ◌==◌, inl, inr, Bool-cases, subst, any, one_of, eq_iff,
}
use cloudops_agent.Json.{ℤ, Value, Fields, null, bool, num, str, arr, obj}
use cloudops_agent.Json.Access.{get}
use cloudops_agent.Verifier.Health.{
  Health, replicas_of, counted, int_le, int_or_zero, dict_of, dicts_of, deployment_health,
  deployment_counts, statefulset_health, daemonset_health, pod_health, job_health, health_of,
  kind_of, workload_health, is_text, deadline_exceeded,
}

-- A verdict does not both pass and fail for good.
abbrev pub IsSound : Option Health → Type 0
IsSound o =
    (passed terminal : Bool) (detail : String)
    → o ≡ some (passed, terminal, detail)
    → (passed && terminal) ≡ false

-- A verdict that passes has seen the generation that was asked for.
abbrev pub IsCurrent : ℤ → ℤ → Option Health → Type 0
IsCurrent generation observed o =
    (terminal : Bool) (detail : String)
    → o ≡ some (true, terminal, detail)
    → int_le generation observed ≡ true

running_or_failed : (v : Value) → (is_text "Running" v && is_text "Failed" v) ≡ false
running_or_failed null = refl
running_or_failed (bool b) = refl
running_or_failed (num n) = refl
running_or_failed (str s) = elim (Bool-cases (s == "Running")) [
  | inl e ↦
      subst (λ (x : String). (x == "Running" && x == "Failed") ≡ false)
        (sym ((eq_iff s "Running").0 e)) refl
  | inr e ↦ rw e refl
]
running_or_failed (arr xs) = refl
running_or_failed (obj d) = refl

module _ (generation observed : ℤ) (spec status : Fields) where
  statefulset_health-IsSound : IsSound (statefulset_health generation observed spec status)
  unfolding statefulset_health
  statefulset_health-IsSound p t d h = ground arith

  statefulset_health-IsCurrent :
      IsCurrent generation observed (statefulset_health generation observed spec status)
  unfolding statefulset_health
  statefulset_health-IsCurrent t d h = ground arith

  daemonset_health-IsSound : IsSound (daemonset_health generation observed spec status)
  unfolding daemonset_health
  daemonset_health-IsSound p t d h = ground arith

  daemonset_health-IsCurrent :
      IsCurrent generation observed (daemonset_health generation observed spec status)
  unfolding daemonset_health
  daemonset_health-IsCurrent t d h = ground arith

  -- What the four counts of a deployment give.
  deployment_counts-verdict :
      (p t : Bool) (d : String)
      → deployment_counts generation observed spec status ≡ some (p, t, d)
      → (t ≡ false) × (p ≡ true → int_le generation observed ≡ true)
  unfolding deployment_counts
  deployment_counts-verdict p t d h =
      let (replicas, e1, h1) = >>=-eq-some (replicas_of generation observed spec status) _ h in
      let (ready, e2, h2) =
        >>=-eq-some (counted generation observed spec status "availableReplicas") _ h1 in
      let (updated, e3, h3) =
        >>=-eq-some (counted generation observed spec status "updatedReplicas") _ h2 in
      let (unavailable, e4, h4) =
        >>=-eq-some (counted generation observed spec status "unavailableReplicas") _ h3 in
      let passed = ap (λ (x : Health). x.0) (some_inj h4) in
      let terminal = ap (λ (x : Health). x.1) (some_inj h4) in
      (sym terminal, λ e. ground (arith, passed ∙ e))

  deployment_health-IsSound : IsSound (deployment_health generation observed spec status)
  unfolding deployment_health
  deployment_health-IsSound p t d h =
      let (conditions, e, k) = >>=-eq-some (dicts_of (get "conditions" status)) _ h in
      elim (Bool-cases (any deadline_exceeded conditions)) [
        | inl late ↦ ground arith
        | inr early ↦
            let law = deployment_counts-verdict p t d (rw early at k) in ground (arith, law.0)
      ]

  deployment_health-IsCurrent :
      IsCurrent generation observed (deployment_health generation observed spec status)
  unfolding deployment_health
  deployment_health-IsCurrent t d h =
      let (conditions, e, k) = >>=-eq-some (dicts_of (get "conditions" status)) _ h in
      elim (Bool-cases (any deadline_exceeded conditions)) [
        | inl late ↦ cc (rw late at k)
        | inr early ↦ (deployment_counts-verdict true t d (rw early at k)).1 refl
      ]

pod_health-IsSound : (status : Fields) → IsSound (pod_health status)
unfolding pod_health
pod_health-IsSound status p t d h = ground (arith, running_or_failed (get "phase" status))

job_health-IsSound : (status : Fields) → IsSound (job_health status)
unfolding job_health
job_health-IsSound status p t d h = ground arith

module _ (kind : String) (generation observed : ℤ) (spec status : Fields) where
  health_of-IsSound : IsSound (health_of kind generation observed spec status)
  health_of-IsSound p t d h = elim (Bool-cases (kind == "deployment")) [
    | inl e ↦ deployment_health-IsSound generation observed spec status p t d (rw e at h)
    | inr e1 ↦ elim (Bool-cases (kind == "statefulset")) [
      | inl e ↦ statefulset_health-IsSound generation observed spec status p t d (rw (e1, e) at h)
      | inr e2 ↦ elim (Bool-cases (kind == "daemonset")) [
        | inl e ↦
            daemonset_health-IsSound generation observed spec status p t d (rw (e1, e2, e) at h)
        | inr e3 ↦ elim (Bool-cases (kind == "pod")) [
          | inl e ↦ pod_health-IsSound status p t d (rw (e1, e2, e3, e) at h)
          | inr e4 ↦ elim (Bool-cases (kind == "job")) [
            | inl e ↦ job_health-IsSound status p t d (rw (e1, e2, e3, e4, e) at h)
            | inr e5 ↦ ground arith
          ]
        ]
      ]
    ]
  ]

  health_of-IsCurrent :
      one_of ("deployment" ∷ "statefulset" ∷ "daemonset" ∷ []) kind ≡ true
      → IsCurrent generation observed (health_of kind generation observed spec status)
  unfolding one_of
  health_of-IsCurrent rolled t d h = elim (Bool-cases (kind == "deployment")) [
    | inl e ↦ deployment_health-IsCurrent generation observed spec status t d (rw e at h)
    | inr e1 ↦ elim (Bool-cases (kind == "statefulset")) [
      | inl e ↦ statefulset_health-IsCurrent generation observed spec status t d (rw (e1, e) at h)
      | inr e2 ↦ elim (Bool-cases (kind == "daemonset")) [
        | inl e ↦
            daemonset_health-IsCurrent generation observed spec status t d (rw (e1, e2, e) at h)
        | inr e3 ↦ cc (rw (e1, e2, e3) at rolled)
      ]
    ]
  ]

-- The verdict on a workload never passes and fails for good at once, of whatever kind the resource is;
-- and a deployment, stateful set or daemon set passes only where its controller has observed the
-- generation that its metadata states, or a later one.
pub workload_health-IsSound :
    (resource : Fields) (passed terminal : Bool) (detail : String)
    → workload_health resource ≡ some (passed, terminal, detail)
    → ((passed && terminal) ≡ false)
      × (passed ≡ true
          → one_of ("deployment" ∷ "statefulset" ∷ "daemonset" ∷ []) (kind_of resource) ≡ true
          → (metadata : Fields) × (status : Fields) × (generation : ℤ) × (observed : ℤ) × (dict_of
                (get "metadata" resource)
              ≡ some metadata)
            × (dict_of (get "status" resource) ≡ some status)
            × (int_or_zero (get "generation" metadata) ≡ some generation)
            × (int_or_zero (get "observedGeneration" status) ≡ some observed)
            × (int_le generation observed ≡ true))
unfolding workload_health
workload_health-IsSound resource p t d h =
    let (metadata, e1, h1) = >>=-eq-some (dict_of (get "metadata" resource)) _ h in
    let (spec, e2, h2) = >>=-eq-some (dict_of (get "spec" resource)) _ h1 in
    let (status, e3, h3) = >>=-eq-some (dict_of (get "status" resource)) _ h2 in
    let (generation, e4, h4) = >>=-eq-some (int_or_zero (get "generation" metadata)) _ h3 in
    let (observed, e5, h5) = >>=-eq-some (int_or_zero (get "observedGeneration" status)) _ h4 in
    (
      health_of-IsSound (kind_of resource) generation observed spec status p t d h5,
      λ e rolled. (
        metadata,
        status,
        generation,
        observed,
        e1,
        e3,
        e4,
        e5,
        health_of-IsCurrent (kind_of resource) generation observed spec status rolled t d
            (h5 ∙ ap (λ b. some (b, t, d)) e),
      ),
    )
