-- ===== src/Executor/Admit.antt =====
-- engine/src/api/services/tool_executor.py: `execute` up to the journal. Nothing here reads or writes
-- the journal or calls a tool, so the result is a value: what the call says to the user's event
-- stream, and its reply or what it goes on with. A notice is what an event says beyond the type's
-- run, call, tool, title and time. Sending one does not raise.
pub mod Authorized
use cloudops_agent.Prelude.{
  String, Bool, true, false, not, ◌&&◌, Option, none, some, is_some, List, [], ◌∷◌, ◌++◌, filter,
  one_of, starts_with, ◌==◌, if◌then◌else◌,
}
use Prim.Native.String.{◌++◌ as join_text}
use cloudops_agent.Text.{is_empty, join}
use cloudops_agent.Json.{Value, bool, str, obj, Items, nil, cons, Fields, done, field}
use cloudops_agent.Json.Access.{get, lookup, truthy}
use cloudops_agent.Settings.{Settings}
use cloudops_agent.Mutation.Manifest.{Yaml, text_or, redact_tool_args}
use cloudops_agent.Mutation.Operation.{ExecutionStatus}
use cloudops_agent.Capability.{
  ToolCapability, ToolMetadata, requires_approval, get_tool_capability, is_infrastructure_tool,
  capability_error,
}
use cloudops_agent.Policy.{MutationPolicyDecision, evaluate}
use cloudops_agent.Verifier.Plan.{build_verification_plan}
use cloudops_agent.Journal.Table.{Context}
use cloudops_agent.Executor.Metadata.{metadata_of, metadata_of_maybe, is_system_tool, need_approval}
use cloudops_agent.Executor.Jenkins.{Integration, inject_jenkins_metadata_tool_args}

pub data Notice : Type 0 where
  tool_error : String → Notice
  policy_denied : String → String → Notice
  awaiting_approval : Fields → Notice
  denied_by_user : Fields → Notice
  approved_by_user : Fields → Notice
  mutation_prepared : Notice
  tool_executing : Fields → Notice
  mutation_outcome : ExecutionStatus → Notice
  tool_result : List Value → Notice

-- How a call ends: content blocks, or one of the two exceptions that it lets out.
pub data Outcome : Type 0 where
  reply : List Value → Outcome
  approval_pending : Outcome
  cancelled_error : Outcome

abbrev pub text_block : String → Value
text_block s = obj (field "type" (str "text") (field "text" (str s) done))

abbrev pub say : String → Outcome
say s = reply (text_block s ∷ [])

-- A stage that may end the call.
pub data Stage {ℓ} (A : Type ℓ) : Type ℓ where
  stop : List Notice → Outcome → Stage A
  next : List Notice → A → Stage A

abbrev pub noting {ℓ} : {A : Type ℓ} → List Notice → Stage A → Stage A
noting ns (stop ms o) = stop (ns ++ ms) o
noting ns (next ms a) = next (ns ++ ms) a

infixl 5 ◌>>=◌ ◌>>◌
abbrev pub ◌>>=◌ {ℓ κ} : {A : Type ℓ} {B : Type κ} → Stage A → (A → Stage B) → Stage B
stop ns o >>= f = stop ns o
next ns a >>= f = noting ns (f a)

abbrev pub ◌>>◌ {ℓ} : {B : Type ℓ} → Stage (Unit {0}) → Stage B → Stage B
m >> k = m >>= λ _. k

abbrev pub when : Bool → List Notice → List Notice
when b ns = if b then ns else []

-- What the arguments and the surroundings of a call of `execute` are.
pub record Call : Type 0 where
  pub run_id : String
  pub name : String
  pub args : Fields
  pub context : Context
  pub call_id : String
  pub operation_id : String
  -- what `_get_tool_metadata` gives to `execute`, where it is asked again for the validation, and to
  -- the approval service
  pub metadata : Option Fields
  pub metadata_again : Option Fields
  pub metadata_for_approval : Option Fields
  -- the result of `get_integration("jenkins")`
  pub integration : Option Integration
  -- whether there is an event stream
  pub listening : Bool

abbrev pub publishes : Call → Bool
publishes c = c.listening && not (is_system_tool c.metadata)

-- What a call that has been admitted goes on with. `control` is there for a controlled mutation.
pub record Control : Type 0 where
  pub policy : MutationPolicyDecision
  pub plan : Fields

pub record Admitted : Type 0 where
  pub args : Fields
  pub event_args : Fields
  pub control : Option Control

-- tool_metadata or await self._get_tool_metadata(name)
abbrev pub or_again : Option Fields → Option Fields → Option Fields
or_again none again = again
or_again (some tool) again = some tool

-- `_validate_tool_parameters`
unfoldable pub validate_tool_parameters : String → Fields → Option Fields → Option String
validate_tool_parameters name args none =
    some (join_text "Tool '" (join_text name "' not found in available tools"))
validate_tool_parameters name args (some tool) =
    elim (filter (λ p. not (is_some (lookup p args))) (metadata_of tool).required) [
      | [] ↦ none
      | p ∷ ps ↦ some (join_text "Missing required parameters: " (join ", " (p ∷ ps)))
    ]

-- The reply to an error, with the event that goes with it.
abbrev pub stop_if : Bool → Option String → (String → String) → Stage (Unit {0})
stop_if publishes none wording = next [] tt
stop_if publishes (some e) wording = stop (when publishes (tool_error e ∷ [])) (say (wording e))

abbrev pub requires : Call → Option ToolCapability → Bool
requires c none = need_approval c.metadata_for_approval
requires c (some capability) =
    if is_infrastructure_tool c.name
    then requires_approval capability
    else need_approval c.metadata_for_approval

abbrev pub needs_approval : Call → Bool
needs_approval c = requires c (get_tool_capability c.name)

abbrev pub infrastructure_mutation : Settings → Call → Bool
infrastructure_mutation settings c =
    settings.mutation_control_enabled && needs_approval c && is_infrastructure_tool c.name

-- CONTROLLED_MUTATION_TOOLS
abbrev pub controlled_mutation_tools : List String
controlled_mutation_tools =
    "k8s_apply" ∷ "helm_install" ∷ "helm_install_with_values" ∷ "helm_upgrade" ∷ "helm_rollback"
    ∷ []

abbrev pub is_controlled : Option ToolCapability → Bool
is_controlled none = false
is_controlled (some capability) = capability.controlled

unfoldable pub controlled_mutation : Settings → Call → Bool
controlled_mutation settings c =
    infrastructure_mutation settings c
    && is_controlled (get_tool_capability c.name)
    && one_of controlled_mutation_tools c.name

-- (context or {}).get("approval_decisions", {}).get(call_id)
unfoldable pub decision : String → List (String × Bool) → Option Bool
decision call_id [] = none
decision call_id ((k, d) ∷ rest) = if k == call_id then some d else decision call_id rest

-- What the call does about an approval.
abbrev pub settle : Call → Fields → Option Bool → Stage (Unit {0})
settle c event_args none =
    stop (when (publishes c) (awaiting_approval event_args ∷ [])) approval_pending
settle c event_args (some false) =
    stop (when (publishes c) (denied_by_user event_args ∷ []))
      (say "Tool call was denied by the user")
settle c event_args (some true) = next (when (publishes c) (approved_by_user event_args ∷ [])) tt

unfoldable pub check_approval : Call → Fields → Stage (Unit {0})
check_approval c event_args =
    if needs_approval c
    then settle c event_args (decision c.call_id c.context.approval_decisions)
    else next [] tt

-- A denial by the policy.
abbrev pub check_policy : Call → MutationPolicyDecision → Stage (Unit {0})
check_policy c d =
    if d.allowed
    then next [] tt
    else stop (when (publishes c) (policy_denied d.rule d.reason ∷ tool_error d.reason ∷ []))
        (say (join_text "Tool policy denied: " d.reason))

-- The words of the last handler.
abbrev pub failure : String → String → Outcome
failure name e = say (join_text "Error executing " (join_text name (join_text ": " e)))

abbrev pub unregistered : String → String
unregistered name =
    join_text
      "Mutation blocked: deterministic authorization and verification adapters are not registered for "
      (join_text name ".")

abbrev pub is_supported : Fields → Bool
is_supported plan = truthy (get "supported" plan)

module _ (settings : Settings) (yaml : Yaml) where
  -- A plan that cannot be built is an exception, with the text that PyYAML gives it.
  abbrev pub check_plan : Call → Fields → Option Fields → Stage Fields
  check_plan c args none =
      let e = yaml.error_text (text_or (get "content" args) "") in
      stop (when (publishes c) (tool_error e ∷ [])) (failure c.name e)
  check_plan c args (some plan) =
      if is_supported plan
      then next [] plan
      else stop (when (publishes c) (tool_error (unregistered c.name) ∷ []))
          (say (unregistered c.name))

  abbrev pub policy_of : Call → Fields → MutationPolicyDecision
  policy_of c args =
      evaluate settings yaml c.name args c.context.user_id c.context.user_role c.context.environment

  -- The policy and the plan of an infrastructure mutation; the journal takes those of a controlled one.
  unfoldable pub check_mutation : Call → Fields → Stage (Option Control)
  check_mutation c args =
      if infrastructure_mutation settings c
      then (do
        check_policy c (policy_of c args)
        plan ← check_plan c args (build_verification_plan yaml c.name args c.operation_id)
        next [] (
            if controlled_mutation settings c
            then some (record { policy = policy_of c args; plan = plan })
            else none))
      else next [] none

  unfoldable pub admit : Call → Stage Admitted
  admit c =
      let (args, error) =
        inject_jenkins_metadata_tool_args c.name c.args c.metadata c.integration in
      do
        stop_if (publishes c) (capability_error c.name (metadata_of_maybe c.metadata)) (λ e. e)
        stop_if c.listening error (λ e. e)
        stop_if false (validate_tool_parameters c.name args (or_again c.metadata c.metadata_again))
            (join_text "Tool validation failed: ")
        control ← check_mutation c args
        check_approval c (redact_tool_args yaml c.name args)
        next [] (record {
          args = args;
          event_args = redact_tool_args yaml c.name args;
          control = control;
        })
