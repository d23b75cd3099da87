-- ===== src/Journal/Converge.antt =====
-- engine/src/api/services/mutation_journal.py: what `converge_stopped_run` leaves of a run, with other
-- workers between its two updates.
use cloudops_agent.Prelude.{
  ℕ, String, Bool, true, false, ◌&&◌, Option, none, some, ◌≡◌, refl, arith, sym, ap, ◌∙◌, some_inj,
  List, [], ◌∷◌, inl, inr, Bool-cases, ◌==◌,
}
use cloudops_agent.Json.{Value}
use cloudops_agent.Settings.{Settings}
use cloudops_agent.Mutation.Manifest.{Yaml}
use cloudops_agent.Mutation.Operation.{
  MutationOperation, ExecutionStatus, is_prepared, is_executing,
}
use cloudops_agent.Journal.Rows.{
  Clock, Action, raise, mark_executing, record_execution, claim_verification, record_verification,
  abandon_verification, recover_execution, recover_verification, cancel_prepared,
  interrupt_executing,
}
use cloudops_agent.Journal.Table.{
  Table, find_row, converge_stopped_run, cancel_run_prepared, interrupt_run_executing, of_run,
}
use cloudops_agent.Journal.Lookup.{find_row-update_where}
use cloudops_agent.Journal.Steps.{
  Event, apply, run, RowStep, idle, started, finished, claimed, concluded, abandoned, recovered,
  released, cancelled, interrupted,
}
use cloudops_agent.Journal.Steps.Bulk.{cancel_prepared-id, interrupt_executing-id}
use cloudops_agent.Journal.Steps.Apply.{apply-RowStep}
use cloudops_agent.Journal.History.Once.{RowStep-prepared}

module _ (settings : Settings) where
  RowStep-run_id : {op op' : MutationOperation} → RowStep settings op op' → op'.run_id ≡ op.run_id
  unfolding mark_executing record_execution claim_verification record_verification
      abandon_verification recover_execution recover_verification cancel_prepared
      interrupt_executing
  RowStep-run_id (idle e) = ap (λ (o : MutationOperation). o.run_id) e
  RowStep-run_id (started clock owner r e) = ground arith
  RowStep-run_id (finished clock status result error r o e) = ground arith
  RowStep-run_id (claimed clock owner r e) = ground arith
  RowStep-run_id (concluded clock owner status result reference r o e) = ground arith
  RowStep-run_id (abandoned clock owner reason r e) = ground arith
  RowStep-run_id (recovered now s e) = ground arith
  RowStep-run_id (released now s e) = ground arith
  RowStep-run_id (cancelled now s e) = ground arith
  RowStep-run_id (interrupted now s e) = ground arith

  RowStep-left :
      {op op' : MutationOperation}
      → RowStep settings op op'
      → is_prepared op.execution_status ≡ false
      → is_prepared op'.execution_status ≡ false
  RowStep-left {op} {op'} step left = elim (Bool-cases (is_prepared op'.execution_status)) [
    | inl again ↦ cc (RowStep-prepared settings step again, left)
    | inr gone ↦ gone
  ]

-- A row of the run that is not prepared.
abbrev pub IsLeft : String → MutationOperation → Type 0
IsLeft run_id op = (of_run run_id op ≡ true) × (is_prepared op.execution_status ≡ false)

cancel_run_prepared-IsLeft :
    (run_id : String) (now : ℕ) (t : Table) (id : String) (op : MutationOperation)
    → find_row id t ≡ some op
    → of_run run_id op ≡ true
    → (op' : MutationOperation) × (find_row id (cancel_run_prepared run_id now t).1 ≡ some op')
      × IsLeft run_id op'
unfolding cancel_run_prepared cancel_prepared
cancel_run_prepared-IsLeft run_id now t id op there ours =
    let place =
      find_row-update_where (λ o. of_run run_id o && is_prepared o.execution_status)
        (cancel_prepared now) (cancel_prepared-id now) id t in
    elim (Bool-cases (is_prepared op.execution_status)) [
      | inl e ↦ (cancel_prepared now op, place ∙ rw (there, ours, e) refl, (ours, refl))
      | inr e ↦ (op, place ∙ rw (there, ours, e) refl, (ours, e))
    ]

interrupt_run_executing-ended :
    (run_id : String) (now : ℕ) (t : Table) (id : String) (op op' : MutationOperation)
    → find_row id t ≡ some op
    → IsLeft run_id op
    → find_row id (interrupt_run_executing run_id now t).1 ≡ some op'
    → (is_prepared op'.execution_status ≡ false) × (is_executing op'.execution_status ≡ false)
unfolding interrupt_run_executing interrupt_executing
interrupt_run_executing-ended run_id now t id op op' there (ours, left) after =
    let place =
      find_row-update_where (λ o. of_run run_id o && is_executing o.execution_status)
        (interrupt_executing now) (interrupt_executing-id now) id t in
    elim (Bool-cases (is_executing op.execution_status)) [
      | inl e ↦
          let same : some (interrupt_executing now op) ≡ some op' =
            sym (place ∙ rw (there, ours, e) refl) ∙ after in
          ended (some_inj same) refl refl
      | inr e ↦
          let same : some op ≡ some op' = sym (place ∙ rw (there, ours, e) refl) ∙ after in
          ended (some_inj same) left e
    ]
  where
    ended :
        {o : MutationOperation}
        → o ≡ op'
        → is_prepared o.execution_status ≡ false
        → is_executing o.execution_status ≡ false
        → (is_prepared op'.execution_status ≡ false) × (is_executing op'.execution_status ≡ false)
    ended same p e = (
      ap (λ (r : MutationOperation). is_prepared r.execution_status) (sym same) ∙ p,
      ap (λ (r : MutationOperation). is_executing r.execution_status) (sym same) ∙ e,
    )

abbrev pub is_refused {ℓ} : {A : Type ℓ} → Action A → Bool
is_refused (raise e) = true
is_refused _ = false

ended-is_refused :
    (settings : Settings) (clock : Clock) (owner : String) (status : ExecutionStatus)
    (result error : Option Value) (op : MutationOperation)
    → is_prepared op.execution_status ≡ false
    → is_executing op.execution_status ≡ false
    → (is_refused (mark_executing settings clock owner op) ≡ true)
      × (is_refused (record_execution clock status result error op) ≡ true)
unfolding mark_executing record_execution
ended-is_refused settings clock owner status result error op p e = (rw p refl, rw e refl)

module _ (settings : Settings) (yaml : Yaml) (digest : String → String → String) where
  run-IsLeft :
      (es : List Event) (t : Table) (run_id id : String) (op : MutationOperation)
      → find_row id t ≡ some op
      → IsLeft run_id op
      → (op' : MutationOperation) × (find_row id (run settings yaml digest es t) ≡ some op')
        × IsLeft run_id op'
  unfolding run
  run-IsLeft [] t run_id id op there left = (op, there, left)
  run-IsLeft (e ∷ es) t run_id id op there (ours, left) =
      let (o, new, step) = apply-RowStep settings yaml digest e t id op there in
      run-IsLeft es (apply settings yaml digest e t) run_id id o new (
        ap (λ (r : Option String). elim r [ none ↦ false | some k ↦ k == run_id ])
              (RowStep-run_id settings step)
            ∙ ours,
        RowStep-left settings step left,
      )

  -- After a stop of a run no operation that the run had when the stop began is prepared or executing,
  -- whatever calls of the journal other workers make between the two updates of the stop, so none of
  -- them can be started and none can report an outcome: `mark_executing` and `record_execution` refuse
  -- the row.
  pub converge_stopped_run_ends :
      (run_id : String) (now : ℕ) (others : List Event) (id : String) (t : Table)
      (op op' : MutationOperation) (clock : Clock) (owner : String) (status : ExecutionStatus)
      (result error : Option Value)
      → find_row id t ≡ some op
      → of_run run_id op ≡ true
      → find_row id (converge_stopped_run run_id now (run settings yaml digest others) t).1
        ≡ some op'
      → (is_prepared op'.execution_status ≡ false)
        × (is_executing op'.execution_status ≡ false)
        × (is_refused (mark_executing settings clock owner op') ≡ true)
        × (is_refused (record_execution clock status result error op') ≡ true)
  unfolding converge_stopped_run
  converge_stopped_run_ends run_id now others id t op op' clock owner status result error there ours
        after =
      let (o, first, left) = cancel_run_prepared-IsLeft run_id now t id op there ours in
      let (o', second, still) =
        run-IsLeft others (cancel_run_prepared run_id now t).1 run_id id o first left in
      let (p, e) = interrupt_run_executing-ended run_id now _ id o' op' second still after in
      let (no_start, no_outcome) =
        ended-is_refused settings clock owner status result error op' p e in
      (p, e, no_start, no_outcome)
