-- ===== src/Executor/Run/Replay.antt =====
-- engine/src/api/services/tool_executor.py: the table beside a trace of `execute` is the trace's.
use cloudops_agent.Prelude.{
  String, Option, none, some, List, [], ◌∷◌, ◌++◌, ◌≡◌, refl, sym, ◌∙◌, inl, inr, Bool-cases,
}
use cloudops_agent.Json.{Value, Fields}
use cloudops_agent.Settings.{Settings}
use cloudops_agent.Mutation.Manifest.{Yaml}
use cloudops_agent.Mutation.Operation.{
  ExecutionStatus, MutationOperation, unknown, reported_success,
}
use cloudops_agent.Journal.Table.{Table, Result, ok, err, record_execution_row}
use cloudops_agent.Journal.Steps.{Event, finishing, run, apply}
use cloudops_agent.Executor.Admit.{Notice, Call, Admitted}
use cloudops_agent.Executor.Blocks.{had_error}
use cloudops_agent.Executor.Run.{
  Response, returned, raised, cancelled, World, Effect, journal, elsewhere, Ended, notices, after,
  ended_by, conclude, finish_plain, finish_controlled, call_plain, call_controlled, attached,
  error_record, result_record, error_blocks, success_blocks,
}

module _ (settings : Settings) (yaml : Yaml) (digest : String → String → String) where
  -- The table that the journal's calls of a trace make of a table.
  unfoldable pub replay : List Effect → Table → Table
  replay [] t = t
  replay (journal e ∷ es) t = replay es (apply settings yaml digest e t)
  replay (elsewhere others ∷ es) t = replay es (run settings yaml digest others t)
  replay (_ ∷ es) t = replay es t

  pub run-++ :
      (es fs : List Event) (t : Table)
      → run settings yaml digest (es ++ fs) t
        ≡ run settings yaml digest fs (run settings yaml digest es t)
  unfolding run
  run-++ [] fs t = refl
  run-++ (e ∷ es) fs t = run-++ es fs (apply settings yaml digest e t)

  pub replay-++ : (es fs : List Effect) (t : Table) → replay (es ++ fs) t ≡ replay fs (replay es t)
  unfolding replay
  replay-++ [] fs t = refl
  replay-++ (journal e ∷ es) fs t = replay-++ es fs (apply settings yaml digest e t)
  replay-++ (elsewhere others ∷ es) fs t = replay-++ es fs (run settings yaml digest others t)
  replay-++ (_ ∷ es) fs t = replay-++ es fs t

  pub replay-notices : (ns : List Notice) (t : Table) → replay (notices ns) t ≡ t
  unfolding replay notices
  replay-notices [] t = refl
  replay-notices (n ∷ ns) t = replay-notices ns t

  -- The table at the end is the trace's, from the table `t`.
  abbrev pub Replays : Table → Ended → Type 0
  Replays t e = e.table ≡ replay e.effects t

  pub after-Replays :
      (es : List Effect) (t : Table) (e : Ended) → Replays (replay es t) e → Replays t (after es e)
  unfolding after
  after-Replays es t e h = h ∙ sym (replay-++ es e.effects t)

  module _ (c : Call) (w : World) where
    noted :
        (es : List Effect) (ns : List Notice) (t : Table)
        → replay es t ≡ replay (es ++ notices ns) t
    noted es ns t = sym (replay-++ es (notices ns) t ∙ replay-notices ns (replay es t))

    ended_by-Replays :
        (r : Result MutationOperation) (es : List Effect) (blocks : MutationOperation → List Value)
        (ns : List Notice) (t : Table)
        → Replays t (ended_by settings yaml digest c w r es blocks ns (replay es t))
    ended_by-Replays (err e) es blocks ns t = noted es _ t
    ended_by-Replays (ok op) es blocks ns t = noted es _ t

    conclude-Replays :
        (id : String) (status : ExecutionStatus) (result error : Option Value)
        (blocks : MutationOperation → List Value) (t : Table)
        → Replays t (conclude settings yaml digest c w id status result error blocks t)
    unfolding conclude replay apply
    conclude-Replays id status result error blocks t =
        ended_by-Replays (record_execution_row settings w.finish_clock id status result error t).0
          (journal (finishing w.finish_clock id status result error) ∷ []) blocks _ t

    pub finish_controlled-Replays :
        (id : String) (r : Response) (t : Table)
        → Replays t (finish_controlled settings yaml digest c w id r t)
    unfolding replay apply
    finish_controlled-Replays id (raised e) t = noted [] _ t
    finish_controlled-Replays id cancelled t = refl
    finish_controlled-Replays id (returned result) t = elim (Bool-cases (had_error result)) [
      | inl e ↦ rw e (
          conclude-Replays id unknown none (some (error_record settings yaml digest c w result))
            (error_blocks settings yaml digest c w result) t)
      | inr e ↦ rw e (
          conclude-Replays id reported_success
            (some (result_record settings yaml digest c w result)) none
            (success_blocks settings yaml digest c w result) t)
    ]

    pub finish_plain-Replays :
        (r : Response) (t : Table) → Replays t (finish_plain settings yaml digest c w r t)
    unfolding replay
    finish_plain-Replays (raised e) t = noted [] _ t
    finish_plain-Replays cancelled t = refl
    finish_plain-Replays (returned result) t = elim (Bool-cases (had_error result)) [
      | inl e ↦ rw e (noted [] _ t)
      | inr e ↦ rw e (noted [] _ t)
    ]

    pub noticed-Replays :
        (ns : List Notice) (t : Table) (e : Ended) → Replays t e → Replays t (after (notices ns) e)
    noticed-Replays ns t e h = after-Replays (notices ns) t e (rw (replay-notices ns t) h)

    pub call_plain-Replays :
        (a : Admitted) (t : Table) → Replays t (call_plain settings yaml digest c w a t)
    unfolding call_plain replay
    call_plain-Replays a t =
        noticed-Replays _ t _ (after-Replays _ t _ (finish_plain-Replays (w.respond a.args) t))

    call_controlled-Replays :
        (id : String) (event_args args : Fields) (t : Table)
        → Replays t (call_controlled settings yaml digest c w id event_args args t)
    unfolding call_controlled replay
    call_controlled-Replays id event_args args t = noticed-Replays _ t _ (
        after-Replays _ t _ (
          noticed-Replays _ _ _
            (after-Replays _ _ _ (finish_controlled-Replays id (w.respond args) _))))

    pub attached-Replays :
        (id : String) (event_args : Fields) (o : Option Fields) (t : Table)
        → Replays t (attached settings yaml digest c w id event_args o t)
    unfolding attached replay
    attached-Replays id event_args none t = noted [] _ t
    attached-Replays id event_args (some args) t = call_controlled-Replays id event_args args t
