-- ===== src/Journal/History/Once.antt =====
-- engine/src/api/services/mutation_journal.py: an operation is started at most once.
use cloudops_agent.Prelude.{
  ℕ, ◌+◌, ◌≤◌, String, Bool, true, false, Option, none, some, ◌≡◌, refl, arith, List, [], ◌∷◌,
  Option-cases, Bool-cases, inl, inr, ◌==◌, if◌then◌else◌, ◌&&◌, ◌∙◌, ap, subst, eq_iff,
}
use cloudops_agent.Settings.{Settings}
use cloudops_agent.Mutation.Manifest.{Yaml}
use cloudops_agent.Mutation.Operation.{MutationOperation, is_prepared}
use cloudops_agent.Journal.Rows.{
  Error, does_not_exist, Clock, Action, raise, leave, save, mark_executing, record_execution,
  claim_verification, record_verification, abandon_verification, recover_execution,
  recover_verification, cancel_prepared, interrupt_executing,
}
use cloudops_agent.Journal.Table.{Table, Result, ok, err, find_row, mark_executing_row, locked}
use cloudops_agent.Journal.Steps.{
  Event, starting, apply, RowStep, idle, started, finished, claimed, concluded, abandoned,
  recovered, released, cancelled, interrupted,
}
use cloudops_agent.Journal.Lookup.{find_row-id, find_row-write_row}
use cloudops_agent.Journal.Steps.Apply.{apply-RowStep}

abbrev pub is_ok {ℓ} : {A : Type ℓ} → Result A → Bool
is_ok (ok a) = true
is_ok (err e) = false

-- A prepared row may still start, and so may an operation that is not in the journal yet.
abbrev pub may_start : Option MutationOperation → ℕ
may_start none = 1
may_start (some op) = if is_prepared op.execution_status then 1 else 0

module _ (settings : Settings) where
  -- No step leads back to a prepared row.
  pub RowStep-prepared :
      {op op' : MutationOperation}
      → RowStep settings op op'
      → is_prepared op'.execution_status ≡ true
      → is_prepared op.execution_status ≡ true
  unfolding mark_executing record_execution claim_verification record_verification
      abandon_verification recover_execution recover_verification cancel_prepared
      interrupt_executing
  RowStep-prepared (idle e) h = ground arith
  RowStep-prepared (started clock owner r e) h = ground arith
  RowStep-prepared (finished clock status result error r o e) h = ground arith
  RowStep-prepared (claimed clock owner r e) h = ground arith
  RowStep-prepared (concluded clock owner status result reference r o e) h = ground arith
  RowStep-prepared (abandoned clock owner reason r e) h = ground arith
  RowStep-prepared (recovered now s e) h = ground arith
  RowStep-prepared (released now s e) h = ground arith
  RowStep-prepared (cancelled now s e) h = ground arith
  RowStep-prepared (interrupted now s e) h = ground arith

  -- A row that `mark_executing` saves was prepared and no longer is; every other row it refuses.
  data Start (clock : Clock) (owner : String) (op : MutationOperation) : Type 0 where
    refused : (e : Error) → mark_executing settings clock owner op ≡ raise e → Start clock owner op
    saved :
        (op' r : MutationOperation)
        → mark_executing settings clock owner op ≡ save op' r
        → is_prepared op.execution_status ≡ true
        → op'.id ≡ op.id
        → is_prepared op'.execution_status ≡ false
        → Start clock owner op

  Start-by :
      (clock : Clock) (owner : String) (op : MutationOperation) (a : Action MutationOperation)
      → mark_executing settings clock owner op ≡ a
      → Start clock owner op
  unfolding mark_executing
  Start-by clock owner op (raise e) h = refused e h
  Start-by clock owner op (leave r) h = refused does_not_exist (ground arith)
  Start-by clock owner op (save op' r) h =
      saved op' r h (ground arith) (ground arith) (ground arith)

  mark_executing_row-once :
      (clock : Clock) (id owner : String) (t : Table)
      → is_ok (mark_executing_row settings clock id owner t).0 ≡ true
      → (may_start (find_row id t) ≡ 1)
        × (may_start (find_row id (mark_executing_row settings clock id owner t).1) ≡ 0)
  unfolding locked
  mark_executing_row-once clock id owner t done = elim (Option-cases (find_row id t)) [
    | inl nothing ↦ absurd_ok (rw nothing at done)
    | inr (op, there) ↦ elim (Start-by clock owner op _ refl) [
      | refused e fails ↦ absurd_ok (rw fails at (rw there at done))
      | saved op' r holds was same now ↦ (
        rw (there, was) refl,
        rw (there, holds)
            (rw
              (find_row-write_row id t op op'
                (ap (λ (k : String). find_row k t) (same ∙ find_row-id id t op there) ∙ there))
              (rw ((eq_iff op'.id id).1 (same ∙ find_row-id id t op there), now) refl)),
      )
    ]
  ]
    where
      absurd_ok : {A : Type 0} → false ≡ true → A
      absurd_ok clash = cc

module _ (settings : Settings) (yaml : Yaml) (digest : String → String → String) where
  -- 1 where the event is a call of `mark_executing` on the operation that succeeds.
  abbrev starts : Event → Table → String → ℕ
  starts (starting clock id owner) t j =
      if id == j && is_ok (mark_executing_row settings clock id owner t).0 then 1 else 0
  starts _ t j = 0

  unfoldable pub starts_of : List Event → Table → String → ℕ
  starts_of [] t j = 0
  starts_of (e ∷ es) t j = starts e t j + starts_of es (apply settings yaml digest e t) j

  may_start-bound : (o : Option MutationOperation) → may_start o ≤ 1
  may_start-bound none = omega arith
  may_start-bound (some op) = ground arith

  pub may_start-apply :
      (e : Event) (t : Table) (j : String)
      → may_start (find_row j (apply settings yaml digest e t)) ≤ may_start (find_row j t)
  may_start-apply e t j = elim (Option-cases (find_row j t)) [
    | inl nothing ↦ rw nothing (may_start-bound (find_row j (apply settings yaml digest e t)))
    | inr (op, there) ↦
        let (op', new, step) = apply-RowStep settings yaml digest e t j op there in
        let back = RowStep-prepared settings step in rw (new, there) (ground (arith, back))
  ]

  pub starting-once :
      (clock : Clock) (id owner : String) (t : Table) (j : String)
      → (id == j && is_ok (mark_executing_row settings clock id owner t).0) ≡ true
      → (may_start (find_row j t) ≡ 1)
        × (may_start (find_row j (apply settings yaml digest (starting clock id owner) t)) ≡ 0)
  unfolding apply
  starting-once clock id owner t j h =
      let same : id ≡ j = (eq_iff id j).0 (ground arith) in
      subst
        (λ (k : String).
          (may_start (find_row k t) ≡ 1)
          × (may_start (find_row k (mark_executing_row settings clock id owner t).1) ≡ 0))
        same (mark_executing_row-once settings clock id owner t (ground arith))

  starts-apply :
      (e : Event) (t : Table) (j : String)
      → starts e t j + may_start (find_row j (apply settings yaml digest e t))
        ≤ may_start (find_row j t)
  starts-apply (starting clock id owner) t j =
      elim (Bool-cases (id == j && is_ok (mark_executing_row settings clock id owner t).0)) [
        | inl success ↦
            let (before, after) = starting-once clock id owner t j success in
            rw success (omega arith)
        | inr failure ↦ rw failure (omega (arith, may_start-apply (starting clock id owner) t j))
      ]
  starts-apply e t j = omega (arith, may_start-apply e t j)

  -- Along every sequence of journal calls, from every journal, at most one call of
  -- `mark_executing` on an operation succeeds, and none on one whose row has left PREPARED.
  pub starts_of-once :
      (es : List Event) (t : Table) (j : String) → starts_of es t j ≤ may_start (find_row j t)
  unfolding starts_of
  starts_of-once [] t j = ground arith
  starts_of-once (e ∷ es) t j =
      ground (arith, starts-apply e t j, starts_of-once es (apply settings yaml digest e t) j)
