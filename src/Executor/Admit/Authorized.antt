-- ===== src/Executor/Admit/Authorized.antt =====
-- engine/src/api/services/tool_executor.py: what a call has passed that `execute` goes on with.
use cloudops_agent.Prelude.{
  Bool, true, Option, none, some, List, [], ◌≡◌, refl, ap, ◌∙◌, arith, ◌⊎◌, inl, inr, Option-cases,
  if◌then◌else◌,
}
use cloudops_agent.Json.{Fields}
use cloudops_agent.Settings.{Settings}
use cloudops_agent.Mutation.Manifest.{Yaml, redact_tool_args}
use cloudops_agent.Capability.{capability_error}
use cloudops_agent.Policy.{MutationPolicyDecision}
use cloudops_agent.Verifier.Plan.{build_verification_plan}
use cloudops_agent.Executor.Metadata.{metadata_of_maybe}
use cloudops_agent.Executor.Jenkins.{inject_jenkins_metadata_tool_args}
use cloudops_agent.Executor.Admit.{
  Notice, Outcome, Stage, stop, next, ◌>>=◌, Call, Control, Admitted, admit, check_mutation,
  check_approval, ◌>>◌, check_policy, check_plan, decision, needs_approval, infrastructure_mutation,
  controlled_mutation, policy_of, is_supported, validate_tool_parameters, or_again,
}

absurd_mutation {ℓ κ} :
    {A : Type ℓ} {P : Type κ} {ns ms : List Notice} {o : Outcome} {a : A}
    → stop ns o ≡ next ms a
    → P
absurd_mutation clash = cc

Stage-cases {ℓ} :
    {A : Type ℓ} (s : Stage A)
    → ((ns : List Notice) × (o : Outcome) × (s ≡ stop ns o))
      ⊎ ((ns : List Notice) × (a : A) × (s ≡ next ns a))
Stage-cases (stop ns o) = inl (ns, o, refl)
Stage-cases (next ns a) = inr (ns, a, refl)

next_inj {ℓ} : {A : Type ℓ} {a b : A} {ns ms : List Notice} → next ns a ≡ next ms b → b ≡ a
next_inj h = cc

module _ (settings : Settings) (yaml : Yaml) (c : Call) where
  -- The arguments with what an integration supplies.
  abbrev pub injected : Fields
  injected = (inject_jenkins_metadata_tool_args c.name c.args c.metadata c.integration).0

  -- What a call has passed that goes on: the checks of the registry, of the integration and of the
  -- parameters; where it needs an approval, the user's; and where it is an infrastructure mutation, the
  -- policy, with a plan that the verifier supports.
  pub record Authorized (a : Admitted) : Type 0 where
    pub capable : capability_error c.name (metadata_of_maybe c.metadata) ≡ none
    pub integrated :
        (inject_jenkins_metadata_tool_args c.name c.args c.metadata c.integration).1 ≡ none
    pub args : a.args ≡ injected
    pub valid :
        validate_tool_parameters c.name injected (or_again c.metadata c.metadata_again) ≡ none
    pub approved :
        needs_approval c ≡ true → decision c.call_id c.context.approval_decisions ≡ some true
    pub allowed :
        infrastructure_mutation settings c ≡ true
        → (policy_of settings yaml c injected).allowed ≡ true
    pub planned :
        infrastructure_mutation settings c ≡ true
        → (plan : Fields) × (build_verification_plan yaml c.name injected c.operation_id
            ≡ some plan)
          × (is_supported plan ≡ true)
    pub controlled :
        controlled_mutation settings c ≡ true
        → (k : Control) × (a.control ≡ some k) × (k.policy ≡ policy_of settings yaml c injected)

  check_approval-next :
      (event_args : Fields) {ns : List Notice} {u : Unit {0}}
      → check_approval c event_args ≡ next ns u
      → needs_approval c ≡ true
      → decision c.call_id c.context.approval_decisions ≡ some true
  unfolding check_approval
  check_approval-next event_args h need = ground arith

  -- What the policy's decision `d` and the plan `o` have to be for a mutation to go on.
  mutation-next :
      (d : MutationPolicyDecision) (args : Fields) (o : Option Fields) (b : Bool) (ns : List Notice)
      (k : Option Control)
      → (check_policy c d
          >> (check_plan settings yaml c args o >>= λ plan.
              next [] (if b then some (record { policy = d; plan = plan }) else none)))
        ≡ next ns k
      → (d.allowed ≡ true)
        × ((plan : Fields) × (o ≡ some plan)
            × (is_supported plan ≡ true)
            × (b ≡ true → (k' : Control) × (k ≡ some k') × (k'.policy ≡ d)))
  mutation-next d args none b ns k h = ground arith
  mutation-next d args (some plan) b ns k h = (
    ground arith,
    (plan, refl, ground arith, λ e. (record { policy = d; plan = plan }, ground arith, refl)),
  )

  check_mutation-next :
      (args : Fields) (ns : List Notice) (k : Option Control)
      → check_mutation settings yaml c args ≡ next ns k
      → infrastructure_mutation settings c ≡ true
      → ((policy_of settings yaml c args).allowed ≡ true)
        × ((plan : Fields) × (build_verification_plan yaml c.name args c.operation_id ≡ some plan)
            × (is_supported plan ≡ true)
            × (controlled_mutation settings c ≡ true
                → (k' : Control) × (k ≡ some k') × (k'.policy ≡ policy_of settings yaml c args)))
  unfolding check_mutation
  check_mutation-next args ns k h mutation =
      mutation-next (policy_of settings yaml c args) args
        (build_verification_plan yaml c.name args c.operation_id) (controlled_mutation settings c)
        ns k (rw mutation at h)

  controlled-infrastructure :
      controlled_mutation settings c ≡ true → infrastructure_mutation settings c ≡ true
  unfolding controlled_mutation
  controlled-infrastructure h = ground arith

  -- What `execute` goes on with to the journal or to the tool has passed every check: the registry's, the
  -- integration's and the parameters'; the approval of the user for this very call where one is
  -- needed; and for an infrastructure mutation the policy, on the arguments that the tool will get,
  -- with a verification plan that is supported.
  pub admit-Authorized :
      (a : Admitted) (ns : List Notice) → admit settings yaml c ≡ next ns a → Authorized a
  unfolding admit
  admit-Authorized a ns h =
      let (args, error) =
        inject_jenkins_metadata_tool_args c.name c.args c.metadata c.integration in
      elim (Option-cases (capability_error c.name (metadata_of_maybe c.metadata))) [
        | inr (e, incapable) ↦ absurd_mutation (rw incapable at h)
        | inl capable ↦ elim (Option-cases error) [
          | inr (e, unconfigured) ↦ absurd_mutation (rw (capable, unconfigured) at h)
          | inl integrated ↦
              elim (Option-cases
                (validate_tool_parameters c.name args (or_again c.metadata c.metadata_again))) [
                  | inr (e, invalid) ↦ absurd_mutation (rw (capable, integrated, invalid) at h)
                  | inl valid ↦ elim (Stage-cases (check_mutation settings yaml c args)) [
                    | inl (ms, o, stopped) ↦
                        absurd_mutation (rw (capable, integrated, valid, stopped) at h)
                    | inr (ms, k, mutation) ↦
                        elim (Stage-cases (check_approval c (redact_tool_args yaml c.name args))) [
                          | inl (ls, o, stopped) ↦
                              absurd_mutation
                                (rw (capable, integrated, valid, mutation, stopped) at h)
                          | inr (ls, u, settled) ↦
                              let same =
                                next_inj
                                  (rw (capable, integrated, valid, mutation, settled) at h) in
                              let passed = check_mutation-next args ms k mutation in
                              record {
                                capable = capable;
                                integrated = integrated;
                                args = ap (λ (b : Admitted). b.args) same;
                                valid = valid;
                                approved =
                                    check_approval-next (redact_tool_args yaml c.name args) settled;
                                allowed = λ i. (passed i).0;
                                planned = λ i. ((passed i).1.0, (passed i).1.1, (passed i).1.2);
                                controlled = λ i.
                                    let (k', there, policy) =
                                      (passed (controlled-infrastructure i)).1.3 i in
                                    (k', ap (λ (b : Admitted). b.control) same ∙ there, policy);
                              }
                        ]
                  ]
                ]
        ]
      ]
