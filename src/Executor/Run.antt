-- ===== src/Executor/Run.antt =====
-- engine/src/api/services/tool_executor.py: `execute` from the journal on. The tool's server is a
-- parameter, and so are the calls of the journal that other workers make while this call waits.
pub mod Replay
pub mod Once
pub mod Guarded
pub mod Settled
use cloudops_agent.Prelude.{
  ℕ, String, Bool, true, false, not, ◌&&◌, Option, none, some, List, [], ◌∷◌, ◌++◌, map, length,
  ◌==◌, if◌then◌else◌,
}
use Prim.Native.String.{◌++◌ as join_text}
use cloudops_agent.Json.{Value, bool, num, str, arr, obj, Fields, done, field, of_list, pos}
use cloudops_agent.Json.Access.{fields_of}
use cloudops_agent.Settings.{Settings}
use cloudops_agent.Mutation.Canonical.{hmac_fingerprint}
use cloudops_agent.Mutation.Manifest.{Yaml, attach_operation_metadata}
use cloudops_agent.Mutation.Operation.{
  ExecutionStatus, VerificationStatus, MutationOperation, reported_success, unknown, pending,
  verifying, inconclusive, passed, needs_review, is_prepared, execution_value,
}
use cloudops_agent.Journal.Rows.{Error, Clock, is_verifiable}
use cloudops_agent.Journal.Table.{
  Table, Result, ok, err, prepare, mark_executing_row, record_execution_row,
}
use cloudops_agent.Journal.Steps.{Event, preparing, starting, finishing, run}
use cloudops_agent.Executor.Metadata.{metadata_of}
use cloudops_agent.Executor.Admit.{
  Notice, tool_error, mutation_prepared, tool_executing, mutation_outcome, tool_result, Outcome,
  reply, cancelled_error, Stage, stop, next, when, Call, publishes, Control, Admitted, admit,
  failure, say, text_block,
}
use cloudops_agent.Executor.Duplicates.{suppress, title_of}
use cloudops_agent.Executor.Blocks.{
  mutation_meta_block, reliability_dict, ambiguous, had_error, error_message, content_blocks,
}

pub data Response : Type 0 where
  returned : Value → Response
  raised : String → Response
  cancelled : Response

pub record World : Type 0 where
  pub prepare_clock : Clock
  pub start_clock : Clock
  pub finish_clock : Clock
  -- the text of an error of the journal, and of what `attach_operation_metadata` raises
  pub error_text : Error → String
  pub attach_error : String
  -- what other workers ask of the journal before `mark_executing`, between it and the tool's call,
  -- and during that call
  pub before_start : List Event
  pub before_call : List Event
  pub during_call : List Event
  pub respond : Fields → Response

-- What a call does to the world outside, in order. The tool's call bears the operation that it is for.
pub data Effect : Type 0 where
  notify : Notice → Effect
  journal : Event → Effect
  -- the calls of the journal that others make at this point
  elsewhere : List Event → Effect
  call_tool : Option String → Fields → Effect

pub record Ended : Type 0 where
  pub outcome : Outcome
  pub effects : List Effect
  pub table : Table

unfoldable pub notices : List Notice → List Effect
notices [] = []
notices (n ∷ ns) = notify n ∷ notices ns

unfoldable pub after : List Effect → Ended → Ended
after es e = record e { effects = es ++ e.effects }

abbrev pub ambiguous_words : Value
ambiguous_words =
    text_block
      "The command result was ambiguous. Skyflo is verifying the real infrastructure state and will not repeat the mutation."

abbrev pub failed : Call → String → List Effect → Table → Ended
failed c e es t = record {
  outcome = failure c.name e;
  effects = es ++ notices (when (publishes c) (tool_error e ∷ []));
  table = t;
}

-- str(hash or "")
abbrev pub hmac_or_empty : MutationOperation → String
hmac_or_empty op = elim op.desired_state_hmac [ none ↦ "" | some h ↦ h ]

abbrev pub tool_error_words : Value → String
tool_error_words result = join_text "Tool error: " (error_message result)

module _ (settings : Settings) (yaml : Yaml) (digest : String → String → String) (c : Call)
    (w : World) where
  abbrev fingerprint : Value → Value
  fingerprint v = str (hmac_fingerprint digest settings.internal_api_key (v ∷ []))

  abbrev pub error_record : Value → Value
  error_record result = obj (
      field "error_hmac" (fingerprint (str (error_message result)))
        (field "reliability" (obj (ambiguous (reliability_dict (fields_of result)))) done))

  abbrev pub result_record : Value → Value
  result_record result = obj (
      field "result_hmac" (fingerprint (arr (of_list (content_blocks result))))
        (field "content_block_count" (num (pos (length (content_blocks result)))) done))

  abbrev pub cancelled_record : Value
  cancelled_record =
      obj (field "error_type" (str "cancelled") (field "ambiguous_outcome" (bool true) done))

  abbrev pub plain_ending : Value → Table → Ended
  plain_ending result t =
      if had_error result
      then record {
        outcome = say (tool_error_words result);
        effects = notices (when (publishes c) (tool_error (error_message result) ∷ []));
        table = t;
      }
      else record {
        outcome = reply (content_blocks result);
        effects = notices (when (publishes c) (tool_result (content_blocks result) ∷ []));
        table = t;
      }

  -- The end of a call for no operation of the journal.
  abbrev pub finish_plain : Response → Table → Ended
  finish_plain (raised e) t = failed c e [] t
  finish_plain cancelled t = record { outcome = cancelled_error; effects = []; table = t }
  finish_plain (returned result) t = plain_ending result t

  abbrev pub ended_by :
      Result MutationOperation
      → List Effect
      → (MutationOperation → List Value)
      → List Notice
      → Table
      → Ended
  ended_by (err e) es blocks ns t = failed c (w.error_text e) es t
  ended_by (ok op) es blocks ns t = record {
    outcome = reply (blocks op);
    effects = es ++ notices (when (publishes c) ns);
    table = t;
  }

  -- `record_execution`, and the reply with the row that it gives back.
  unfoldable pub conclude :
      String
      → ExecutionStatus
      → Option Value
      → Option Value
      → (MutationOperation → List Value)
      → Table
      → Ended
  conclude id status result error blocks t =
      let (recorded, t') = record_execution_row settings w.finish_clock id status result error t in
      ended_by recorded (journal (finishing w.finish_clock id status result error) ∷ []) blocks
        (mutation_outcome status ∷ []) t'

  abbrev pub error_blocks : Value → MutationOperation → List Value
  error_blocks result op =
      text_block (tool_error_words result)
      ∷ mutation_meta_block op true (title_of c) (some (ambiguous_words ∷ []))
      ∷ []

  abbrev pub success_blocks : Value → MutationOperation → List Value
  success_blocks result op =
      content_blocks result
      ++ mutation_meta_block op true (title_of c) (some (content_blocks result)) ∷ []

  -- The end of a call for an operation. An error of the server leaves the row to the recovery of leases,
  -- and so does an error of the journal after a cancellation.
  abbrev pub finish_controlled : String → Response → Table → Ended
  finish_controlled id (raised e) t = failed c e [] t
  finish_controlled id cancelled t = record {
    outcome = cancelled_error;
    effects = journal (finishing w.finish_clock id unknown none (some cancelled_record)) ∷ [];
    table =
        (record_execution_row settings w.finish_clock id unknown none (some cancelled_record) t).1;
  }
  finish_controlled id (returned result) t =
      if had_error result
      then conclude id unknown none (some (error_record result)) (error_blocks result) t
      else conclude id reported_success (some (result_record result)) none (success_blocks result) t

  abbrev history : List Event → Table → Table
  history = run settings yaml digest

  unfoldable pub call_plain : Admitted → Table → Ended
  unfolding hmac_fingerprint had_error error_message content_blocks
  call_plain a t =
      after (notices (when (publishes c) (tool_executing a.event_args ∷ [])))
        (after (call_tool none a.args ∷ []) (finish_plain (w.respond a.args) t))

  -- The call, its operation being marked, with the arguments that carry the mark.
  unfoldable pub call_controlled : String → Fields → Fields → Table → Ended
  unfolding hmac_fingerprint had_error error_message content_blocks reliability_dict
      mutation_meta_block run
  call_controlled id event_args args t =
      let t' = history w.during_call (history w.before_call t) in
      after (notices (when (publishes c) (mutation_prepared ∷ []))) (
        after (elsewhere w.before_call ∷ []) (
          after (notices (when (publishes c) (tool_executing event_args ∷ []))) (
            after (call_tool (some id) args ∷ elsewhere w.during_call ∷ [])
              (finish_controlled id (w.respond args) t'))))

  unfoldable pub attached : String → Fields → Option Fields → Table → Ended
  unfolding call_controlled
  attached id event_args none t = failed c w.attach_error [] t
  attached id event_args (some args) t = call_controlled id event_args args t

  abbrev pub started : String → Admitted → Result MutationOperation → Table → Ended
  started id a (err e) t = failed c (w.error_text e) [] t
  started id a (ok op) t =
      attached id a.event_args (attach_operation_metadata yaml c.name a.args id (hmac_or_empty op))
        t

  unfoldable pub start : String → Admitted → Table → Ended
  unfolding attached attach_operation_metadata run
  start id a t =
      let t' = history w.before_start t in
      let (marked, t'') = mark_executing_row settings w.start_clock id c.run_id t' in
      after (elsewhere w.before_start ∷ journal (starting w.start_clock id c.run_id) ∷ [])
        (started id a marked t'')

  abbrev pub ended : List Value → Table → Ended
  ended blocks t = record { outcome = reply blocks; effects = []; table = t }

  abbrev pub reused : MutationOperation → Option (List Value) → Admitted → Table → Ended
  reused op none a t = start op.id a t
  reused op (some blocks) a t = ended blocks t

  abbrev pub prepared : Result (MutationOperation × Bool) → Admitted → Table → Ended
  prepared (err e) a t =
      ended
        (text_block (
            join_text
              "Mutation blocked before execution because the durable journal is unavailable: "
              (w.error_text e))
          ∷ [])
        t
  prepared (ok (op, true)) a t = start op.id a t
  prepared (ok (op, false)) a t = reused op (suppress c op) a t

  unfoldable pub perform : Admitted → Option Control → Table → Ended
  unfolding call_plain start suppress
  perform a none t = call_plain a t
  perform a (some k) t =
      let (result, t') =
        prepare settings yaml digest w.prepare_clock (λ u. u) c.operation_id c.run_id c.call_id
          c.name a.args c.context k.policy k.plan t in
      after
        (journal (
            preparing w.prepare_clock c.operation_id c.run_id c.call_id c.name a.args c.context
              k.policy k.plan)
          ∷ [])
        (prepared result a t')

  abbrev pub admitted : Stage Admitted → Table → Ended
  admitted (stop ns o) t = record { outcome = o; effects = notices ns; table = t }
  admitted (next ns a) t = after (notices ns) (perform a a.control t)

  unfoldable pub execute : Table → Ended
  unfolding perform admit
  execute t = admitted (admit settings yaml c) t
