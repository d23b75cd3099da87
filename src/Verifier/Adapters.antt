-- ===== src/Verifier/Adapters.antt =====
-- engine/src/api/services/mutation_verifier.py: the passes of `verify` by the two adapters, and what the
-- cluster showed where the loop concludes that an operation passed.
use cloudops_agent.Prelude.{
  ℕ, zero, suc, ◌+◌, String, Bool, true, Option, none, some, ◌≡◌, refl, arith, ◌∙◌, ◌⊎◌, inl, inr,
  Bool-cases, Option-cases,
}
use cloudops_agent.Json.{Value, Fields}
use cloudops_agent.Json.Access.{get, fields_of}
use cloudops_agent.Mutation.Manifest.{Yaml}
use cloudops_agent.Mutation.Operation.{MutationOperation, passed}
use cloudops_agent.Verifier.Health.{is_text}
use cloudops_agent.Verifier.Kubernetes.{verify_kubernetes}
use cloudops_agent.Verifier.Kubernetes.Sound.{PlanVerified, verify_kubernetes-IsVerified}
use cloudops_agent.Verifier.Helm.{verify_helm}
use cloudops_agent.Verifier.Helm.Sound.{IsDeployed, verify_helm-IsDeployed}
use cloudops_agent.Verifier.Loop.{Pass, gave, raised, adapter_pass, decide, conclude, passes}

-- An adapter that raises, by its exception's type.
abbrev pub pass_by : String → Option (Bool × Bool × Fields) → Pass
pass_by exception none = raised exception
pass_by exception (some (now_passed, terminal, result)) = gave now_passed terminal result

pass_by-passed :
    (exception : String) (o : Option (Bool × Bool × Fields)) (terminal : Bool) (result : Fields)
    → pass_by exception o ≡ gave true terminal result
    → o ≡ some (true, terminal, result)
pass_by-passed exception none terminal result h = ground arith
pass_by-passed exception (some (now_passed, t, r)) terminal result h = ground arith

decide-passed :
    (deadline now : ℕ) (now_passed terminal : Bool) (last_result result : Fields)
    → decide deadline now now_passed terminal last_result ≡ some (passed, result)
    → (now_passed ≡ true) × (last_result ≡ result)
decide-passed deadline now now_passed terminal last_result result h = ground arith

conclude-passed :
    (deadline now : ℕ) (p : Pass) (result : Fields)
    → conclude deadline now p ≡ some (passed, result)
    → (terminal : Bool) × (p ≡ gave true terminal result)
conclude-passed deadline now (gave now_passed terminal last_result) result h =
    let (yes_passed, same) = decide-passed deadline now now_passed terminal last_result result h in
    (terminal, rw (yes_passed, same) refl)
conclude-passed deadline now (raised name) result h = ground arith

-- A loop that concludes PASSED had a pass that passed.
pub passes-passed :
    (deadline : ℕ) (pass : ℕ → Pass) (time : ℕ → ℕ) (fuel n : ℕ) (result : Fields)
    → passes deadline pass time fuel n ≡ some (passed, result)
    → (k : ℕ) × (terminal : Bool) × (pass k ≡ gave true terminal result)
unfolding passes
passes-passed deadline pass time zero n result h = ground arith
passes-passed deadline pass time (suc fuel) n result h =
    elim (Option-cases (conclude deadline (time n) (pass n))) [
      | inl goes_on ↦ passes-passed deadline pass time fuel (n + 1) result (rw goes_on at h)
      | inr (ended, e) ↦
          let now : conclude deadline (time n) (pass n) ≡ some (passed, result) = e ∙ rw e at h in
          let (terminal, given) = conclude-passed deadline (time n) (pass n) result now in
          (n, terminal, given)
    ]

module _ (yaml : Yaml) (exception_name : String → String) (loads : String → Option Value)
    (op : MutationOperation) (exception : ℕ → String)
    (call : ℕ → ℕ → String → Fields → Fields) where
  -- The n-th pass, by the adapter that the plan names; its calls of tools are `call n`.
  unfoldable pub operation_pass : ℕ → Pass
  operation_pass n =
      adapter_pass (get "adapter" (fields_of op.verification_plan))
        (pass_by (exception n) (verify_kubernetes op loads (call n)))
        (pass_by (exception n) (verify_helm yaml exception_name loads (call n) op))

  abbrev pub names_adapter : String → Bool
  names_adapter name = is_text name (get "adapter" (fields_of op.verification_plan))

  -- What the cluster showed in the n-th pass, by the adapter that the plan names.
  abbrev pub IsShown : ℕ → Type 0
  IsShown n =
      ((names_adapter "kubernetes_apply" ≡ true) × PlanVerified op loads (call n))
      ⊎ ((names_adapter "helm_release" ≡ true) × IsDeployed yaml exception_name loads (call n) op)

  operation_pass-IsShown :
      (n : ℕ) (terminal : Bool) (result : Fields)
      → operation_pass n ≡ gave true terminal result
      → IsShown n
  unfolding operation_pass
  operation_pass-IsShown n terminal result h =
      elim (Bool-cases (names_adapter "kubernetes_apply")) [
        | inl k ↦ inl (
          k,
          verify_kubernetes-IsVerified op loads (call n) terminal result
              (pass_by-passed (exception n) _ terminal result (rw k at h)),
        )
        | inr k ↦ elim (Bool-cases (names_adapter "helm_release")) [
          | inl r ↦ inr (
            r,
            verify_helm-IsDeployed yaml exception_name loads (call n) op terminal result
                (pass_by-passed (exception n) _ terminal result (rw r at (rw k at h))),
          )
          | inr r ↦ ground (arith, rw r at (rw k at h))
        ]
      ]

  -- The verification loop concludes PASSED only where the cluster showed the operation's effect in one
  -- pass: every target of the plan was read with the operation's markers and the desired spec, and is
  -- healthy, or the plan's release is deployed with the operation's marker and all its workloads
  -- match and are healthy.
  pub passes-IsShown :
      (deadline : ℕ) (time : ℕ → ℕ) (fuel : ℕ) (result : Fields)
      → passes deadline operation_pass time fuel 0 ≡ some (passed, result)
      → (n : ℕ) × IsShown n
  passes-IsShown deadline time fuel result h =
      let (n, terminal, given) = passes-passed deadline operation_pass time fuel 0 result h in
      (n, operation_pass-IsShown n terminal result given)
