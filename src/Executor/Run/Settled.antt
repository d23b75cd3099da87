-- ===== src/Executor/Run/Settled.antt =====
-- engine/src/api/services/tool_executor.py: what is left of an operation when its tool has answered.

use cloudops_agent.Prelude.{
  String, true, Option, none, some, List, [], ◌∷◌, ◌++◌, ◌≡◌, refl, ap, ◌∙◌, arith, inl, inr,
  Bool-cases, eq_iff, if◌then◌else◌,
}
use cloudops_agent.Json.{Value, Fields}
use cloudops_agent.Settings.{Settings}
use cloudops_agent.Mutation.Manifest.{Yaml}
use cloudops_agent.Mutation.Operation.{
  ExecutionStatus, MutationOperation, unknown, reported_success, is_executing,
}
use cloudops_agent.Journal.Rows.{Action, raise, leave, save, Clock, record_execution, is_outcome}
use cloudops_agent.Journal.Table.{Table, ok, find_row, record_execution_row, locked}
use cloudops_agent.Journal.Lookup.{find_row-id, find_row-write_row}
use cloudops_agent.Journal.Steps.{run}
use cloudops_agent.Executor.Admit.{Call, reply, cancelled_error, failure, text_block}
use cloudops_agent.Executor.Blocks.{mutation_meta_block, had_error, content_blocks}
use cloudops_agent.Executor.Duplicates.{title_of}
use cloudops_agent.Executor.Run.{
  Effect, tool_error_words, ambiguous_words, Response, returned, raised, cancelled, World, Ended,
  after, conclude, finish_controlled, call_controlled, cancelled_record, error_record,
  result_record, error_blocks, success_blocks,
}

record_execution-saves :
    (clock : Clock) (status : ExecutionStatus) (result error : Option Value)
    (op : MutationOperation) (a : Action MutationOperation)
    → record_execution clock status result error op ≡ a
    → is_executing op.execution_status ≡ true
    → (op' : MutationOperation) × (a ≡ save op' op')
      × (op'.id ≡ op.id)
      × (op'.execution_status ≡ status)
unfolding record_execution
record_execution-saves clock status result error op (raise e) h going = ground arith
record_execution-saves clock status result error op (leave r) h going = ground arith
record_execution-saves clock status result error op (save op' r) h going =
    (op', ground arith, ground arith, ground arith)

-- A row that is executing takes an outcome, and is then the row that the call gives back.
record_execution_row-saves :
    (settings : Settings) (clock : Clock) (id : String) (status : ExecutionStatus)
    (result error : Option Value) (t : Table) (op : MutationOperation)
    → is_outcome status ≡ true
    → find_row id t ≡ some op
    → is_executing op.execution_status ≡ true
    → (op' : MutationOperation) × ((record_execution_row settings clock id status result error t).0
        ≡ ok op')
      × (find_row id (record_execution_row settings clock id status result error t).1 ≡ some op')
      × (op'.execution_status ≡ status)
unfolding locked
record_execution_row-saves settings clock id status result error t op outcome there going =
    let (op', saved, same, recorded) =
      record_execution-saves clock status result error op _ refl going in
    let here : op'.id ≡ id = same ∙ find_row-id id t op there in
    (
      op',
      rw (outcome, there, saved) refl,
      rw (outcome, there, saved)
          (find_row-write_row id t op op' (ap (λ (k : String). find_row k t) here ∙ there)
            ∙ rw ((eq_iff op'.id id).1 here) refl),
      recorded,
    )

module _ (settings : Settings) (yaml : Yaml) (digest : String → String → String) (c : Call)
    (w : World) where
  -- How a call ends that was made for the operation `id`. An answer is recorded, and the reply ends with
  -- the block that makes the session verify the operation; a cancellation is recorded as an unknown
  -- outcome; an error of the server leaves the row executing.
  pub data Settled (id : String) : Response → Ended → Type 0 where
    answered :
        (result : Value) (e : Ended) (op : MutationOperation) (front : List Value)
        (display : Option (List Value))
        → find_row id e.table ≡ some op
        → op.execution_status ≡ (if had_error result then unknown else reported_success)
        → e.outcome ≡ reply (front ++ mutation_meta_block op true (title_of c) display ∷ [])
        → Settled id (returned result) e
    interrupted :
        (e : Ended) (op : MutationOperation)
        → find_row id e.table ≡ some op
        → op.execution_status ≡ unknown
        → e.outcome ≡ cancelled_error
        → Settled id cancelled e
    lost :
        (message : String) (e : Ended) (op : MutationOperation)
        → find_row id e.table ≡ some op
        → is_executing op.execution_status ≡ true
        → e.outcome ≡ failure c.name message
        → Settled id (raised message) e

  conclude-answers :
      (id : String) (status : ExecutionStatus) (result error : Option Value)
      (blocks : MutationOperation → List Value) (t : Table) (op : MutationOperation)
      → is_outcome status ≡ true
      → find_row id t ≡ some op
      → is_executing op.execution_status ≡ true
      → (op' : MutationOperation) × (find_row id
            (conclude settings yaml digest c w id status result error blocks t).table
          ≡ some op')
        × (op'.execution_status ≡ status)
        × ((conclude settings yaml digest c w id status result error blocks t).outcome
            ≡ reply (blocks op'))
  unfolding conclude
  conclude-answers id status result error blocks t op outcome there going =
      let (op', given, found, recorded) =
        record_execution_row-saves settings w.finish_clock id status result error t op outcome there
          going in
      (op', rw given found, recorded, rw given refl)

  finish_controlled-Settled :
      (id : String) (r : Response) (t : Table) (op : MutationOperation)
      → find_row id t ≡ some op
      → is_executing op.execution_status ≡ true
      → Settled id r (finish_controlled settings yaml digest c w id r t)
  finish_controlled-Settled id (raised e) t op there going = lost e _ op there going refl
  finish_controlled-Settled id cancelled t op there going =
      let (op', given, found, status) =
        record_execution_row-saves settings w.finish_clock id unknown none
          (some (cancelled_record settings yaml digest c w)) t op refl there going in
      interrupted _ op' found status refl
  finish_controlled-Settled id (returned result) t op there going =
      elim (Bool-cases (had_error result)) [
        | inl e ↦
            let (op', found, status, outcome) =
              conclude-answers id unknown none (some (error_record settings yaml digest c w result))
                (error_blocks settings yaml digest c w result) t op refl there going in
            answered result _ op' (text_block (tool_error_words result) ∷ [])
              (some (ambiguous_words ∷ [])) (rw e found) (rw e status) (rw e outcome)
        | inr e ↦
            let (op', found, status, outcome) =
              conclude-answers id reported_success
                (some (result_record settings yaml digest c w result)) none
                (success_blocks settings yaml digest c w result) t op refl there going in
            answered result _ op' (content_blocks result) (some (content_blocks result))
              (rw e found) (rw e status) (rw e outcome)
      ]

  after-Settled :
      (id : String) (r : Response) (es : List Effect) (e : Ended)
      → Settled id r e
      → Settled id r (after es e)
  unfolding after
  after-Settled id (returned result) es e (answered _ _ op front display found status outcome) =
      answered result _ op front display found status outcome
  after-Settled id cancelled es e (interrupted _ op found status outcome) =
      interrupted _ op found status outcome
  after-Settled id (raised m) es e (lost _ _ op found going outcome) =
      lost m _ op found going outcome

  -- Where the row of an operation is still executing when its tool has answered, the call records the
  -- answer and asks for a verification: the row is UNKNOWN after an error and REPORTED_SUCCESS
  -- otherwise, and the reply ends with a block of that row that requires verification. A cancellation
  -- is recorded as UNKNOWN and is let out. Only where the server's client raises does the row stay
  -- EXECUTING, and the reply says that the execution failed.
  pub call_controlled-Settled :
      (id : String) (event_args args : Fields) (t : Table) (op : MutationOperation)
      → find_row id
          (run settings yaml digest w.during_call (run settings yaml digest w.before_call t))
        ≡ some op
      → is_executing op.execution_status ≡ true
      → Settled id (w.respond args) (call_controlled settings yaml digest c w id event_args args t)
  unfolding call_controlled
  call_controlled-Settled id event_args args t op there going = after-Settled id _ _ _ (
      after-Settled id _ _ _ (
        after-Settled id _ _ _ (
          after-Settled id _ _ _ (finish_controlled-Settled id (w.respond args) _ op there going))))
