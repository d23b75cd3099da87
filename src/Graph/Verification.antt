-- ===== src/Graph/Verification.antt =====
-- engine/src/api/agent/graph.py: `_verification_node`. What `MutationVerifier.verify` gives for an
-- operation is a parameter; Verifier has the function.
pub mod Cleared
use cloudops_agent.Prelude.{
  String, Bool, true, false, not, Option, none, some, List, [], ◌∷◌, ◌++◌, map, filter, all, one_of,
  ◌>>=◌, if◌then◌else◌,
}
use Prim.Native.String.{◌++◌ as join_text}
use cloudops_agent.Text.{join}
use cloudops_agent.Json.{Value, bool, str, obj, Fields, done, field}
use cloudops_agent.Json.Access.{get, lookup, insert}
use cloudops_agent.Json.Print.{text}
use cloudops_agent.Mutation.Operation.{inconclusive, verification_value}
use cloudops_agent.Verifier.Loop.{Answer}
use cloudops_agent.Executor.Blocks.{str_or_null}
use cloudops_agent.Graph.State.{AgentState, requires_verification, requires_any}
use cloudops_agent.Graph.Gate.{operation_id_of, same_id}

-- How a call of `verify` ends; an exception is given by the name of its type.
pub data Verified : Type 0 where
  answered : Answer → Verified
  errored : String → Verified
  interrupted : Verified

abbrev pub runtime_error : Option String → String → Answer
runtime_error operation_id name = record {
  passed = false;
  inconclusive = true;
  status = some inconclusive;
  operation = some (field "operation_id" (str_or_null operation_id) done);
  evidence =
      some
        (obj (field "reason" (str "verification_runtime_error") (field "detail" (str name) done)));
  reason = none;
}

-- The answer that the node goes on with; `none` where a cancellation leaves it.
abbrev pub result_of : Option String → Verified → Option Answer
result_of operation_id (answered a) = some a
result_of operation_id (errored name) = some (runtime_error operation_id name)
result_of operation_id interrupted = none

-- result.get("status", "inconclusive")
abbrev pub status_text : Answer → String
status_text a = elim a.status [ none ↦ "inconclusive" | some s ↦ verification_value s ]

abbrev pub open_statuses : List String
open_statuses = "pending" ∷ "verifying" ∷ "inconclusive" ∷ []

unfoldable pub replacement : Fields → Answer → Fields
replacement item a =
    insert "requires_verification" (bool (one_of open_statuses (status_text a)))
      (insert "verification_status" (str (status_text a)) item)

unfoldable pub replace_operation : Option String → Fields → List Fields → List Fields
replace_operation id new [] = []
replace_operation id new (op ∷ ops) =
    let rest = replace_operation id new ops in
    if same_id (operation_id_of op) id then new ∷ rest else op ∷ rest

-- The loop over the operations that are to be verified.
module _ (verify : Option String → Verified) where
  unfoldable pub verify_all :
      List Fields → List Answer × List Fields → Option (List Answer × List Fields)
  verify_all [] (evidence, operations) = some (evidence, operations)
  verify_all (item ∷ items) (evidence, operations) =
      result_of (operation_id_of item) (verify (operation_id_of item)) >>= λ a.
      verify_all items (
        evidence ++ a ∷ [],
        replace_operation (operation_id_of item) (replacement item a) operations,
      )

abbrev pub all_passed : List Answer → Bool
all_passed = all (λ (a : Answer). a.passed)

-- item["operation"]["operation_id"]; `none` where it raises
abbrev passed_id : Answer → Option String
passed_id a = a.operation >>= λ op. lookup "operation_id" op >>= λ v. some (text v)

unfoldable pub passed_ids : List Answer → Option (List String)
passed_ids [] = some []
passed_ids (a ∷ rest) = passed_id a >>= λ id. passed_ids rest >>= λ ids. some (id ∷ ids)

abbrev failed_id : Answer → String
failed_id a = elim a.operation [
  | none ↦ "unknown"
  | some op ↦ elim (lookup "operation_id" op) [ none ↦ "unknown" | some v ↦ text v ]
]

abbrev pub failed_ids : List Answer → List String
failed_ids evidence = map failed_id (filter (λ (a : Answer). not a.passed) evidence)

abbrev pub blocked_message : List Answer → String
blocked_message evidence =
    join_text
      "Mutation result was not verified. Skyflo runtime blocks any success claim. Operation IDs: "
      (join ", " (failed_ids evidence))

abbrev message : String → String → Value
message role content = obj (field "role" (str role) (field "content" (str content) done))

abbrev summary : List String → Value
summary ids = message "system" (
    join_text "Skyflo deterministic runtime verification passed for mutation operations: "
      (join_text (join ", " ids) ". You may report success using this evidence."))

module _ (s : AgentState) (verify : Option String → Verified) where
  abbrev pub cleared : List Answer → List Fields → List String → AgentState
  cleared evidence operations ids = record s {
    messages = s.messages ++ summary ids ∷ [];
    mutation_operations = operations;
    verification_required = false;
    verification_blocked = false;
    verification_evidence = evidence;
    error = none;
  }

  abbrev pub blocked : List Answer → List Fields → AgentState
  blocked evidence operations = record s {
    messages = s.messages ++ message "assistant" (blocked_message evidence) ∷ [];
    mutation_operations = operations;
    verification_required = requires_any operations;
    verification_blocked = true;
    verification_evidence = evidence;
    error = some (blocked_message evidence);
  }

  abbrev pub concluded : List Answer × List Fields → Option AgentState
  concluded (evidence, operations) =
      if all_passed evidence
      then passed_ids evidence >>= (λ ids. some (cleared evidence operations ids))
      else some (blocked evidence operations)

  abbrev pub verification_of : List Fields → Option AgentState
  verification_of [] =
      some (record s { verification_required = false; verification_blocked = false })
  verification_of (item ∷ items) =
      verify_all verify (item ∷ items) ([], s.mutation_operations) >>= concluded

  -- `none` where an exception leaves the node: a requested stop, a cancellation, or an answer that
  -- passed without an operation.
  unfoldable pub verification_node : Bool → Option AgentState
  verification_node stop_requested =
      if stop_requested
      then none
      else verification_of (filter requires_verification s.mutation_operations)
