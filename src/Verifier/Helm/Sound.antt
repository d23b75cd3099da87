-- ===== src/Verifier/Helm/Sound.antt =====
-- engine/src/api/services/mutation_verifier.py: when `_verify_helm` passes.
use cloudops_agent.Prelude.{
  ℕ, String, Bool, true, false, Option, some, none, List, [], ◌∷◌, ◌≡◌, refl, arith, ap, ◌∙◌, inl,
  inr, Bool-cases, eq_iff, >>=-eq-some, some_inj,
}
use cloudops_agent.Text.{contains}
use cloudops_agent.Json.{Value, obj, Fields}
use cloudops_agent.Json.Access.{get, lookup, truthy}
use cloudops_agent.Mutation.Manifest.{Yaml, Target, text_or}
use cloudops_agent.Mutation.Operation.{MutationOperation}
use cloudops_agent.Verifier.Health.{dict_of, dict_item}
use cloudops_agent.Verifier.Kubernetes.{read_of, Read, refused, invalid, found, result_text}
use cloudops_agent.Verifier.Helm.{
  Release, release_marker, release_status, release_of, release_passed, Workloads, no_workloads,
  see_workloads, helm_verdict, workload_targets, verify_targets, manifest_result,
  targets_of_release, verify_manifest, verify_release, status_result, verify_status, verify_helm,
}
use cloudops_agent.Verifier.Helm.Running.{AllRunning, see_workloads-AllRunning}
use cloudops_agent.Verifier.Kubernetes.Sound.{dict_item-obj}

module _ (yaml : Yaml) (exception_name : String → String) (loads : String → Option Value)
    (call : ℕ → String → Fields → Fields) (op : MutationOperation) where
  -- The release of the plan is deployed and its description carries the operation's marker, its
  -- manifest could be read, and every workload of the manifest is running.
  pub record IsDeployed : Type 0 where
    pub plan : Fields
    pub name : Value
    pub namespace : Value
    pub payload : Fields
    pub info : Fields
    pub targets : List Target
    pub has_plan : op.verification_plan ≡ obj plan
    pub named : lookup "release_name" plan ≡ some name
    pub placed : lookup "namespace" plan ≡ some namespace
    pub status :
        read_of loads (status_result yaml exception_name loads call op name namespace)
        ≡ found (obj payload)
    pub has_info : dict_of (get "info" payload) ≡ some info
    pub deployed : release_status info payload ≡ "deployed"
    pub marked : contains (text_or (get "description" info) "") (release_marker op.id) ≡ true
    pub manifest :
        truthy (
          get "isError" (
            manifest_result yaml exception_name loads call op
              (release_of op.id name namespace payload info)))
        ≡ false
    pub parsed :
        targets_of_release yaml exception_name loads call op
          (release_of op.id name namespace payload info)
        ≡ some targets
    pub running :
        AllRunning yaml exception_name loads call op namespace 2 (workload_targets targets)

  verdict-AllRunning :
      (r : Release) (ts : List Target) (w : Workloads) (terminal : Bool) (result : Fields)
      → see_workloads yaml exception_name loads call op r.namespace 2 ts no_workloads ≡ some w
      → helm_verdict r ts w ≡ (true, terminal, result)
      → AllRunning yaml exception_name loads call op r.namespace 2 ts
  verdict-AllRunning r [] w terminal result seen h = tt
  verdict-AllRunning r (t ∷ ts) w terminal result seen h =
      (see_workloads-AllRunning yaml exception_name loads call op r.namespace 2 (t ∷ ts)
        no_workloads w seen (ground arith)).1

  -- The part of `IsDeployed` that the second and the later calls read.
  abbrev HasRunning : Release → Type 0
  HasRunning r =
      (targets : List Target) × (truthy
          (get "isError" (manifest_result yaml exception_name loads call op r))
        ≡ false)
      × (targets_of_release yaml exception_name loads call op r ≡ some targets)
      × AllRunning yaml exception_name loads call op r.namespace 2 (workload_targets targets)

  verify_targets-HasRunning :
      (r : Release) (o : Option (List Target)) (terminal : Bool) (result : Fields)
      → truthy (get "isError" (manifest_result yaml exception_name loads call op r)) ≡ false
      → targets_of_release yaml exception_name loads call op r ≡ o
      → verify_targets yaml exception_name loads call op r
          (result_text (manifest_result yaml exception_name loads call op r))
          o
        ≡ some (true, terminal, result)
      → HasRunning r
  verify_targets-HasRunning r none terminal result fine e h = ground arith
  verify_targets-HasRunning r (some targets) terminal result fine e h =
      let (w, seen, h1) =
        >>=-eq-some
          (see_workloads yaml exception_name loads call op r.namespace 2 (workload_targets targets)
            no_workloads)
          _ h in
      (targets, fine, e, verdict-AllRunning r _ w terminal result seen (some_inj h1))

  verify_manifest-HasRunning :
      (r : Release) (terminal : Bool) (result : Fields)
      → verify_manifest yaml exception_name loads call op r ≡ some (true, terminal, result)
      → HasRunning r
  unfolding verify_manifest
  verify_manifest-HasRunning r terminal result h =
      elim (Bool-cases
        (truthy (get "isError" (manifest_result yaml exception_name loads call op r)))) [
          | inl failed ↦ ground (arith, rw failed at h)
          | inr fine ↦
              verify_targets-HasRunning r (targets_of_release yaml exception_name loads call op r)
                terminal result fine refl (rw fine at h)
        ]

  verify_release-HasRunning :
      (r : Release) (terminal : Bool) (result : Fields)
      → verify_release yaml exception_name loads call op r ≡ some (true, terminal, result)
      → (release_passed r ≡ true) × HasRunning r
  verify_release-HasRunning r terminal result h = elim (Bool-cases (release_passed r)) [
    | inl yes_passed ↦
        (yes_passed, verify_manifest-HasRunning r terminal result (rw yes_passed at h))
    | inr differs ↦ ground (arith, rw differs at h)
  ]

  release_parts :
      (r : Release) → release_passed r ≡ true → (r.status ≡ "deployed") × (r.marker_matches ≡ true)
  release_parts r h = ((eq_iff r.status "deployed").0 (ground arith), ground arith)

  verify_status-IsDeployed :
      (plan : Fields) (name namespace : Value) (r : Read) (terminal : Bool) (result : Fields)
      → op.verification_plan ≡ obj plan
      → lookup "release_name" plan ≡ some name
      → lookup "namespace" plan ≡ some namespace
      → read_of loads (status_result yaml exception_name loads call op name namespace) ≡ r
      → verify_status yaml exception_name loads call op name namespace
          (status_result yaml exception_name loads call op name namespace)
          r
        ≡ some (true, terminal, result)
      → IsDeployed
  verify_status-IsDeployed plan name namespace (refused e) terminal result p1 p2 p3 reads h =
      ground arith
  verify_status-IsDeployed plan name namespace invalid terminal result p1 p2 p3 reads h =
      ground arith
  verify_status-IsDeployed plan name namespace (found v) terminal result p1 p2 p3 reads h =
      let (payload, e1, h1) = >>=-eq-some (dict_item v) _ h in
      let (info, e2, h2) = >>=-eq-some (dict_of (get "info" payload)) _ h1 in
      let r = release_of op.id name namespace payload info in
      let (released, rest) = verify_release-HasRunning r terminal result h2 in
      let (targets, fine, parses, running) = rest in
      let (deployed, marked) = release_parts r released in
      record {
        plan = plan;
        name = name;
        namespace = namespace;
        payload = payload;
        info = info;
        targets = targets;
        has_plan = p1;
        named = p2;
        placed = p3;
        status = reads ∙ ap found (dict_item-obj v payload e1);
        has_info = e2;
        deployed = deployed;
        marked = marked;
        manifest = fine;
        parsed = parses;
        running = running;
      }

  -- `_verify_helm` reports a passed verification only where the release that the plan names is deployed
  -- with the operation's own marker in its description, its manifest was read and parsed, and every
  -- workload of the manifest was read as a resource that contains the manifest's spec and is healthy.
  pub verify_helm-IsDeployed :
      (terminal : Bool) (result : Fields)
      → verify_helm yaml exception_name loads call op ≡ some (true, terminal, result)
      → IsDeployed
  unfolding verify_helm
  verify_helm-IsDeployed terminal result h =
      let (plan, e1, h1) = >>=-eq-some (dict_item op.verification_plan) _ h in
      let (name, e2, h2) = >>=-eq-some (lookup "release_name" plan) _ h1 in
      let (namespace, e3, h3) = >>=-eq-some (lookup "namespace" plan) _ h2 in
      verify_status-IsDeployed plan name namespace _ terminal result
        (dict_item-obj op.verification_plan plan e1) e2 e3 refl h3
