-- ===== src/Journal/Table/Preparation.antt =====
-- engine/src/api/services/mutation_journal.py: `prepare`.
use cloudops_agent.Prelude.{
  String, Bool, true, false, ◌&&◌, ◌||◌, Option, none, some, List, [], ◌∷◌, ◌++◌, ◌==◌,
  if◌then◌else◌, map,
}
use cloudops_agent.Text.{split, is_empty}
use cloudops_agent.Json.{Value, null, str, arr, obj, Fields, done, field, of_list}
use cloudops_agent.Json.Access.{get, truthy}
use cloudops_agent.Settings.{Settings}
use cloudops_agent.Mutation.Canonical.{hmac_fingerprint}
use cloudops_agent.Mutation.Manifest.{Yaml, Target, redact_tool_args}
use cloudops_agent.Mutation.Operation.{
  prepared, not_required, pending, MutationOperation, allow, approved,
}
use cloudops_agent.Policy.{MutationPolicyDecision}
use cloudops_agent.Journal.Rows.{Error, invalid_transition, does_not_exist, Clock}
use cloudops_agent.Journal.Table.Store.{Result, ok, err, Table}

-- The context that the gate hands to the executor and on to `prepare`.
pub record Context : Type 0 where
  pub idempotency_key : Option String
  pub workspace_id : Option String
  pub conversation_id : Option String
  pub user_id : Option String
  pub user_role : Option String
  pub environment : Option String
  pub approval_decisions : List (String × Bool)
  pub approval_reasons : List (String × String)

-- d.get(k)
unfoldable pub find {ℓ} : {V : Type ℓ} → String → List (String × V) → Option V
find k [] = none
find k ((j, v) ∷ rest) = if j == k then some v else find k rest

abbrev pub value_of : Option String → Value
value_of none = null
value_of (some s) = str s

abbrev with_spec : Option Fields → Fields
with_spec none = done
with_spec (some spec) = field "desired_spec" (obj spec) done

abbrev pub target_value : Target → Value
target_value t = obj (
    field "api_version" (str t.api_version) (
      field "kind" (str t.kind) (
        field "name" (str t.name)
          (field "namespace" (str t.namespace) (with_spec t.desired_spec)))))

abbrev head_or : String → List String → String
head_or d [] = d
head_or d (s ∷ rest) = s

-- existing.tool_name != tool_name or existing.args_hmac != args_hmac
abbrev pub same_intent : String → String → MutationOperation → Bool
same_intent tool_name args_hmac op = op.tool_name == tool_name && op.args_hmac == args_hmac

abbrev pub key_or : Option String → String → String
key_or none fallback = fallback
key_or (some s) fallback = if is_empty s then fallback else s

-- Q(id=…) | Q(idempotency_key=…), and the same test for the table's unique columns
abbrev pub claims : String → String → MutationOperation → Bool
claims id key op = op.id == id || op.idempotency_key == key

unfoldable pub first_where : (MutationOperation → Bool) → Table → Option MutationOperation
first_where p [] = none
first_where p (op ∷ rest) = if p op then some op else first_where p rest

abbrev pub collision : Error
collision = invalid_transition "Idempotency key collision with different mutation intent"

-- A row that is there already is returned if it has the same intent.
unfoldable pub reuse : String → String → MutationOperation → Result (MutationOperation × Bool)
reuse tool_name args_hmac op =
    if same_intent tool_name args_hmac op then ok (op, false) else err collision

abbrev pub reuse_found :
    String → String → Option MutationOperation → Result (MutationOperation × Bool)
reuse_found tool_name args_hmac none = err does_not_exist
reuse_found tool_name args_hmac (some op) = reuse tool_name args_hmac op

abbrev pub insert_or :
    Option MutationOperation
    → Result (MutationOperation × Bool)
    → MutationOperation
    → Table
    → Result (MutationOperation × Bool) × Table
insert_or none failed op t = (ok (op, true), t ++ op ∷ [])
insert_or (some taken) failed op t = (failed, t)

-- `create`, with the answer to the integrity error that a taken identifier or key raises
unfoldable pub create_or_reuse :
    String → MutationOperation → String → Table → Result (MutationOperation × Bool) × Table
create_or_reuse tool_name op args_hmac t =
    insert_or (first_where (claims op.id op.idempotency_key) t)
      (reuse_found tool_name args_hmac
        (first_where (λ o. o.idempotency_key == op.idempotency_key) t))
      op t

abbrev pub existing_or {ℓ} :
    {A : Type ℓ} → Option MutationOperation → (MutationOperation → A) → A → A
existing_or none found other = other
existing_or (some op) found other = found op

module _ (settings : Settings) (yaml : Yaml) (digest : String → String → String)
    (clock : Clock) where
  unfoldable pub new_operation :
      String
      → String
      → String
      → String
      → String
      → Fields
      → Context
      → MutationPolicyDecision
      → Fields
      → String
      → MutationOperation
  unfolding find split
  new_operation id key run_id call_id tool_name args context policy plan args_hmac = record {
    id = id;
    idempotency_key = key;
    workspace_id = context.workspace_id;
    conversation_id = context.conversation_id;
    run_id = some run_id;
    call_id = some call_id;
    user_id = context.user_id;
    user_role = context.user_role;
    tool_name = tool_name;
    tool_category = head_or "" (split b'_' tool_name);
    target_identity = obj (field "targets" (arr (of_list (map target_value policy.targets))) done);
    redacted_args = obj (redact_tool_args yaml tool_name args);
    args_hmac = args_hmac;
    desired_state_hmac = some args_hmac;
    policy_decision = allow;
    policy_reason = policy.reason;
    approval_status = approved;
    approved_by_user_id = context.user_id;
    approved_at = some (clock 0);
    approval_reason = find call_id context.approval_reasons;
    execution_status = prepared;
    verification_status = if truthy (get "supported" plan) then pending else not_required;
    attempt_count = 0;
    verification_attempt_count = 0;
    external_reference = obj done;
    execution_result = obj done;
    execution_error = obj done;
    verification_plan = obj plan;
    verification_result = obj done;
    lease_owner = none;
    lease_expires_at = none;
    verification_lease_owner = none;
    verification_lease_expires_at = none;
    started_at = none;
    finished_at = none;
    created_at = clock 1;
    updated_at = clock 2;
    version = 1;
  }

  -- `meanwhile` is what other workers do to the table between the query and the insertion.
  unfoldable pub prepare :
      (Table → Table)
      → String
      → String
      → String
      → String
      → Fields
      → Context
      → MutationPolicyDecision
      → Fields
      → Table
      → Result (MutationOperation × Bool) × Table
  prepare meanwhile id run_id call_id tool_name args context policy plan t =
      let fingerprint = hmac_fingerprint digest settings.internal_api_key in
      let key = key_or context.idempotency_key (
        fingerprint
          (value_of context.conversation_id ∷ str call_id ∷ str tool_name ∷ obj args ∷ [])) in
      let args_hmac = fingerprint (str tool_name ∷ obj args ∷ []) in
      existing_or (first_where (claims id key) t) (λ op. (reuse tool_name args_hmac op, t))
        (create_or_reuse tool_name
          (new_operation id key run_id call_id tool_name args context policy plan args_hmac)
          args_hmac (meanwhile t))
