-- ===== src/Executor/Run/Once.antt =====
-- engine/src/api/services/tool_executor.py: an operation of the journal is executed at most once.
use cloudops_agent.Prelude.{
  ℕ, ◌+◌, ◌≤◌, String, Bool, true, false, ◌&&◌, Option, none, some, List, [], ◌∷◌, ◌++◌, ◌≡◌, refl,
  ◌∙◌, arith, inl, inr, Bool-cases, ◌==◌, if◌then◌else◌,
}
use cloudops_agent.Json.{Value, Fields}
use cloudops_agent.Settings.{Settings}
use cloudops_agent.Mutation.Manifest.{Yaml, attach_operation_metadata}
use cloudops_agent.Mutation.Operation.{ExecutionStatus, MutationOperation}
use cloudops_agent.Journal.Table.{
  Table, Result, ok, err, find_row, prepare, mark_executing_row, record_execution_row,
}
use cloudops_agent.Journal.Steps.{Event, starting, finishing, run, apply}
use cloudops_agent.Journal.History.Once.{may_start, may_start-apply, starting-once, is_ok}
use cloudops_agent.Executor.Admit.{Notice, Stage, stop, next, Call, Admitted, admit, Control}
use cloudops_agent.Executor.Blocks.{had_error}
use cloudops_agent.Executor.Duplicates.{suppress}
use cloudops_agent.Executor.Run.{
  Response, returned, raised, cancelled, World, Effect, journal, elsewhere, call_tool, Ended,
  notices, after, ended_by, conclude, finish_plain, finish_controlled, call_plain, call_controlled,
  attached, started, start, reused, prepared, perform, admitted, execute, hmac_or_empty,
}
use cloudops_agent.Executor.Run.Replay.{
  replay, Replays, replay-notices, attached-Replays, call_plain-Replays,
}

-- How often the tool is called for the operation `j`.
unfoldable pub calls_for : String → List Effect → ℕ
calls_for j [] = 0
calls_for j (call_tool (some id) args ∷ es) = (if id == j then 1 else 0) + calls_for j es
calls_for j (_ ∷ es) = calls_for j es

module _ (j : String) where
  calls_for-++ : (es fs : List Effect) → calls_for j (es ++ fs) ≡ calls_for j es + calls_for j fs
  unfolding calls_for
  calls_for-++ [] fs = omega arith
  calls_for-++ (call_tool (some id) args ∷ es) fs = omega (arith, calls_for-++ es fs)
  calls_for-++ (_ ∷ es) fs = calls_for-++ es fs

  calls_for-notices : (ns : List Notice) → calls_for j (notices ns) ≡ 0
  unfolding calls_for notices
  calls_for-notices [] = refl
  calls_for-notices (n ∷ ns) = calls_for-notices ns

  calls_for-after :
      (es : List Effect) (e : Ended)
      → calls_for j (after es e).effects ≡ calls_for j es + calls_for j e.effects
  unfolding after
  calls_for-after es e = calls_for-++ es e.effects

  noticed-calls :
      (ns : List Notice) (e : Ended)
      → calls_for j (after (notices ns) e).effects ≡ calls_for j e.effects
  noticed-calls ns e = omega (arith, calls_for-after (notices ns) e, calls_for-notices ns)

  waited-calls :
      (others : List Event) (e : Ended)
      → calls_for j (after (elsewhere others ∷ []) e).effects ≡ calls_for j e.effects
  unfolding after calls_for
  waited-calls others e = refl

  uncounted-calls :
      (args : Fields) (e : Ended)
      → calls_for j (after (call_tool none args ∷ []) e).effects ≡ calls_for j e.effects
  unfolding after calls_for
  uncounted-calls args e = refl

  called-calls :
      (id : String) (args : Fields) (others : List Event) (e : Ended)
      → calls_for j e.effects ≡ 0
      → calls_for j (after (call_tool (some id) args ∷ elsewhere others ∷ []) e).effects
        ≡ (if id == j then 1 else 0)
  unfolding after calls_for
  called-calls id args others e h = omega (arith, h)

module _ (settings : Settings) (yaml : Yaml) (digest : String → String → String) (c : Call)
    (w : World) (j : String) where
  run-may_start :
      (es : List Event) (t : Table)
      → may_start (find_row j (run settings yaml digest es t)) ≤ may_start (find_row j t)
  unfolding run
  run-may_start [] t = omega arith
  run-may_start (e ∷ es) t = omega (
    arith,
    run-may_start es (apply settings yaml digest e t),
    may_start-apply settings yaml digest e t j,
  )

  replay-may_start :
      (es : List Effect) (t : Table)
      → may_start (find_row j (replay settings yaml digest es t)) ≤ may_start (find_row j t)
  unfolding replay
  replay-may_start [] t = omega arith
  replay-may_start (journal e ∷ es) t = omega (
    arith,
    replay-may_start es (apply settings yaml digest e t),
    may_start-apply settings yaml digest e t j,
  )
  replay-may_start (elsewhere others ∷ es) t =
      omega (arith, replay-may_start es (run settings yaml digest others t), run-may_start others t)
  replay-may_start (_ ∷ es) t = replay-may_start es t

  Replays-may_start :
      (t : Table) (e : Ended)
      → Replays settings yaml digest t e
      → may_start (find_row j e.table) ≤ may_start (find_row j t)
  Replays-may_start t e h = rw h (replay-may_start e.effects t)

  -- The calls for the operation are paid for by what it may still start.
  abbrev pub Paid : Table → Ended → Type 0
  Paid t e = calls_for j e.effects + may_start (find_row j e.table) ≤ may_start (find_row j t)

  after-Paid :
      (es : List Effect) (t : Table) (e : Ended)
      → calls_for j es ≡ 0
      → Paid (replay settings yaml digest es t) e
      → Paid t (after es e)
  unfolding after
  after-Paid es t e quiet h =
      rw (calls_for-after j es e) (omega (arith, quiet, h, replay-may_start es t))

  ended_by-calls :
      (r : Result MutationOperation) (es : List Effect) (blocks : MutationOperation → List Value)
      (ns : List Notice) (t : Table)
      → calls_for j es ≡ 0
      → calls_for j (ended_by settings yaml digest c w r es blocks ns t).effects ≡ 0
  ended_by-calls (err e) es blocks ns t h =
      omega (arith, h, calls_for-++ j es _, calls_for-notices j _)
  ended_by-calls (ok op) es blocks ns t h =
      omega (arith, h, calls_for-++ j es _, calls_for-notices j _)

  conclude-calls :
      (id : String) (status : ExecutionStatus) (result error : Option Value)
      (blocks : MutationOperation → List Value) (t : Table)
      → calls_for j (conclude settings yaml digest c w id status result error blocks t).effects ≡ 0
  unfolding conclude calls_for
  conclude-calls id status result error blocks t =
      ended_by-calls (record_execution_row settings w.finish_clock id status result error t).0
        (journal (finishing w.finish_clock id status result error) ∷ []) blocks _ _ refl

  finish_controlled-calls :
      (id : String) (r : Response) (t : Table)
      → calls_for j (finish_controlled settings yaml digest c w id r t).effects ≡ 0
  unfolding calls_for
  finish_controlled-calls id (raised e) t = calls_for-notices j _
  finish_controlled-calls id cancelled t = refl
  finish_controlled-calls id (returned result) t = elim (Bool-cases (had_error result)) [
    | inl e ↦ rw e (conclude-calls id _ _ _ _ t)
    | inr e ↦ rw e (conclude-calls id _ _ _ _ t)
  ]

  finish_plain-calls :
      (r : Response) (t : Table)
      → calls_for j (finish_plain settings yaml digest c w r t).effects ≡ 0
  unfolding calls_for
  finish_plain-calls (raised e) t = calls_for-notices j _
  finish_plain-calls cancelled t = refl
  finish_plain-calls (returned result) t = elim (Bool-cases (had_error result)) [
    | inl e ↦ rw e (calls_for-notices j _)
    | inr e ↦ rw e (calls_for-notices j _)
  ]

  call_plain-calls :
      (a : Admitted) (t : Table) → calls_for j (call_plain settings yaml digest c w a t).effects ≡ 0
  unfolding call_plain calls_for
  call_plain-calls a t =
      noticed-calls j _ _ ∙ uncounted-calls j a.args _ ∙ finish_plain-calls (w.respond a.args) t

  call_controlled-calls :
      (id : String) (event_args args : Fields) (t : Table)
      → calls_for j (call_controlled settings yaml digest c w id event_args args t).effects
        ≡ (if id == j then 1 else 0)
  unfolding call_controlled calls_for
  call_controlled-calls id event_args args t =
      noticed-calls j _ _
      ∙ waited-calls j _ _
      ∙ noticed-calls j _ _
      ∙ called-calls j id args _ _ (finish_controlled-calls id (w.respond args) _)

  attached-calls :
      (id : String) (event_args : Fields) (o : Option Fields) (t : Table)
      → calls_for j (attached settings yaml digest c w id event_args o t).effects
        ≤ (if id == j then 1 else 0)
  unfolding attached
  attached-calls id event_args none t = rw (calls_for-notices j _) (ground arith)
  attached-calls id event_args (some args) t =
      rw (call_controlled-calls id event_args args t) (ground arith)

  attached-Paid :
      (id : String) (event_args : Fields) (o : Option Fields) (t0 t : Table)
      → (id == j ≡ true → (may_start (find_row j t0) ≡ 1) × (may_start (find_row j t) ≡ 0))
      → may_start (find_row j t) ≤ may_start (find_row j t0)
      → calls_for j (attached settings yaml digest c w id event_args o t).effects
          + may_start (find_row j (attached settings yaml digest c w id event_args o t).table)
        ≤ may_start (find_row j t0)
  attached-Paid id event_args o t0 t once down =
      let left =
        Replays-may_start t (attached settings yaml digest c w id event_args o t)
          (attached-Replays settings yaml digest c w id event_args o t) in
      elim (Bool-cases (id == j)) [
        | inl e ↦
            let (one, none_left) = once e in
            omega (arith, one, none_left, left, rw e at (attached-calls id event_args o t))
        | inr e ↦ omega (arith, down, left, rw e at (attached-calls id event_args o t))
      ]

  started-Paid :
      (id : String) (a : Admitted) (r : Result MutationOperation) (t0 t : Table)
      → ((id == j && is_ok r) ≡ true
          → (may_start (find_row j t0) ≡ 1) × (may_start (find_row j t) ≡ 0))
      → may_start (find_row j t) ≤ may_start (find_row j t0)
      → calls_for j (started settings yaml digest c w id a r t).effects
          + may_start (find_row j (started settings yaml digest c w id a r t).table)
        ≤ may_start (find_row j t0)
  started-Paid id a (err e) t0 t once down = rw (calls_for-notices j _) (omega (arith, down))
  started-Paid id a (ok op) t0 t once down =
      attached-Paid id a.event_args
        (attach_operation_metadata yaml c.name a.args id (hmac_or_empty op)) t0 t
        (λ e. once (rw e refl)) down

  start-Paid :
      (id : String) (a : Admitted) (t : Table) → Paid t (start settings yaml digest c w id a t)
  unfolding start after calls_for apply
  start-Paid id a t =
      let t0 = run settings yaml digest w.before_start t in
      let marked = mark_executing_row settings w.start_clock id c.run_id t0 in
      omega (
        arith,
        started-Paid id a marked.0 t0 marked.1
            (starting-once settings yaml digest w.start_clock id c.run_id t0 j)
            (may_start-apply settings yaml digest (starting w.start_clock id c.run_id) t0 j),
        run-may_start w.before_start t,
      )

  prepared-Paid :
      (r : Result (MutationOperation × Bool)) (a : Admitted) (t : Table)
      → Paid t (prepared settings yaml digest c w r a t)
  unfolding calls_for
  prepared-Paid (err e) a t = omega arith
  prepared-Paid (ok (op, true)) a t = start-Paid op.id a t
  prepared-Paid (ok (op, false)) a t = reused-Paid (suppress c op)
    where
      reused-Paid : (o : Option (List Value)) → Paid t (reused settings yaml digest c w op o a t)
      reused-Paid none = start-Paid op.id a t
      reused-Paid (some blocks) = omega arith

  perform-Paid :
      (a : Admitted) (k : Option Control) (t : Table)
      → Paid t (perform settings yaml digest c w a k t)
  unfolding perform replay apply calls_for
  perform-Paid a none t = omega (
    arith,
    call_plain-calls a t,
    Replays-may_start t (call_plain settings yaml digest c w a t)
        (call_plain-Replays settings yaml digest c w a t),
  )
  perform-Paid a (some k) t = after-Paid _ t _ refl (
      prepared-Paid
        (prepare settings yaml digest w.prepare_clock (λ u. u) c.operation_id c.run_id c.call_id
          c.name a.args c.context k.policy k.plan t).0
        a _)

  admitted-Paid : (s : Stage Admitted) (t : Table) → Paid t (admitted settings yaml digest c w s t)
  admitted-Paid (stop ns o) t = rw (calls_for-notices j ns) (omega arith)
  admitted-Paid (next ns a) t =
      after-Paid (notices ns) t _ (calls_for-notices j ns)
        (rw (replay-notices settings yaml digest ns t) (perform-Paid a a.control t))

  execute-Paid : (t : Table) → Paid t (execute settings yaml digest c w t)
  unfolding execute
  execute-Paid t = admitted-Paid (admit settings yaml c) t

-- Executions one after the other, each after what other workers ask of the journal.
module _ (settings : Settings) (yaml : Yaml) (digest : String → String → String) where
  unfoldable pub session : List (List Event × Call × World) → Table → List Effect × Table
  session [] t = ([], t)
  session ((others, c, w) ∷ rest) t =
      let e = execute settings yaml digest c w (run settings yaml digest others t) in
      let (effects, t') = session rest e.table in (e.effects ++ effects, t')

  -- However often tools are executed, with whatever calls, answers and other work on the journal in
  -- between and during the executions, the tool's server is called at most once for an operation of
  -- the journal, and not at all where its row has left PREPARED before.
  pub session-once :
      (steps : List (List Event × Call × World)) (t : Table) (j : String)
      → calls_for j (session steps t).0 ≤ may_start (find_row j t)
  unfolding session calls_for
  session-once [] t j = omega arith
  session-once ((others, c, w) ∷ rest) t j =
      let t0 = run settings yaml digest others t in
      let e = execute settings yaml digest c w t0 in
      omega (
        arith,
        calls_for-++ j e.effects (session rest e.table).0,
        execute-Paid settings yaml digest c w j t0,
        session-once rest e.table j,
        run-may_start settings yaml digest c w j others t,
      )
