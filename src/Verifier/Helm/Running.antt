-- ===== src/Verifier/Helm/Running.antt =====
-- engine/src/api/services/mutation_verifier.py: when the workloads of a release pass.
use cloudops_agent.Prelude.{
  ℕ, suc, String, Bool, true, ◌&&◌, Option, some, List, [], ◌∷◌, ◌≡◌, refl, arith, ap, ◌∙◌,
  >>=-eq-some, some_inj,
}
use cloudops_agent.Json.{Value, obj, Fields}
use cloudops_agent.Json.Access.{get}
use cloudops_agent.Mutation.Manifest.{Yaml, Target}
use cloudops_agent.Mutation.Operation.{MutationOperation}
use cloudops_agent.Verifier.Health.{dict_of, dict_item, workload_health, Health}
use cloudops_agent.Verifier.Kubernetes.{Read, refused, invalid, found, desired_matches}
use cloudops_agent.Verifier.Helm.{
  workload_fields, Workloads, see_health, see_found, see_one, read_workload, see_workloads,
}
use cloudops_agent.Verifier.Kubernetes.Sound.{dict_item-obj, health_parts}

module _ (yaml : Yaml) (exception_name : String → String) (loads : String → Option Value)
    (call : ℕ → String → Fields → Fields) (op : MutationOperation) where
  -- The n-th call read the workload as a resource that contains the desired spec and is healthy.
  pub record IsRunning (namespace : Value) (n : ℕ) (t : Target) : Type 0 where
    pub resource : Fields
    pub terminal : Bool
    pub detail : String
    pub read : read_workload yaml exception_name loads call op namespace n t ≡ found (obj resource)
    pub matches : desired_matches op (workload_fields t) resource ≡ true
    pub healthy : workload_health resource ≡ some (true, terminal, detail)

  abbrev pub AllRunning : Value → ℕ → List Target → Type 0
  AllRunning namespace n [] = Unit
  AllRunning namespace n (t ∷ ts) = IsRunning namespace n t × AllRunning namespace (suc n) ts

  see_health-passed :
      (t : Target) (matches : Bool) (resource metadata : Fields) (health : Health)
      (w w' : Workloads)
      → see_health t matches resource metadata health w ≡ w'
      → w'.all_passed ≡ true
      → (w.all_passed ≡ true) × (matches ≡ true) × (health.0 ≡ true)
  see_health-passed t matches resource metadata (healthy, terminal, detail) w w' h passed =
      let all : ((w.all_passed && matches) && healthy) ≡ true =
        ap (λ (r : Workloads). r.all_passed) h ∙ passed in
      (ground arith, ground arith, ground arith)

  see_found-IsRunning :
      (namespace : Value) (n : ℕ) (t : Target) (v : Value) (w w' : Workloads)
      → read_workload yaml exception_name loads call op namespace n t ≡ found v
      → see_found yaml exception_name loads call op t v w ≡ some w'
      → w'.all_passed ≡ true
      → (w.all_passed ≡ true) × IsRunning namespace n t
  unfolding see_found
  see_found-IsRunning namespace n t v w w' reads h passed =
      let (resource, e1, h1) = >>=-eq-some (dict_item v) _ h in
      let (health, e2, h2) = >>=-eq-some (workload_health resource) _ h1 in
      let (metadata, e3, h3) = >>=-eq-some (dict_of (get "metadata" resource)) _ h2 in
      let (before, matches, healthy) =
        see_health-passed t (desired_matches op (workload_fields t) resource) resource metadata
          health w w' (some_inj h3) passed in
      (
        before,
        record {
          resource = resource;
          terminal = health.1;
          detail = health.2;
          read = reads ∙ ap found (dict_item-obj v resource e1);
          matches = matches;
          healthy = e2 ∙ health_parts health healthy;
        },
      )

  see_one-IsRunning :
      (namespace : Value) (n : ℕ) (t : Target) (r : Read) (w w' : Workloads)
      → read_workload yaml exception_name loads call op namespace n t ≡ r
      → see_one yaml exception_name loads call op t r w ≡ some w'
      → w'.all_passed ≡ true
      → (w.all_passed ≡ true) × IsRunning namespace n t
  see_one-IsRunning namespace n t (refused result) w w' reads h passed = ground arith
  see_one-IsRunning namespace n t invalid w w' reads h passed = ground arith
  see_one-IsRunning namespace n t (found v) w w' reads h passed =
      see_found-IsRunning namespace n t v w w' reads h passed

  pub see_workloads-AllRunning :
      (namespace : Value) (n : ℕ) (ts : List Target) (w w' : Workloads)
      → see_workloads yaml exception_name loads call op namespace n ts w ≡ some w'
      → w'.all_passed ≡ true
      → (w.all_passed ≡ true) × AllRunning namespace n ts
  unfolding see_workloads
  see_workloads-AllRunning namespace n [] w w' h passed =
      (ap (λ (r : Workloads). r.all_passed) (some_inj h) ∙ passed, tt)
  see_workloads-AllRunning namespace n (t ∷ ts) w w' h passed =
      let (next, e, h1) =
        >>=-eq-some
          (see_one yaml exception_name loads call op t
            (read_workload yaml exception_name loads call op namespace n t) w)
          _ h in
      let (between, others) = see_workloads-AllRunning namespace (suc n) ts next w' h1 passed in
      let (before, this) = see_one-IsRunning namespace n t _ w next refl e between in
      (before, (this, others))
