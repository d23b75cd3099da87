-- ===== src/Journal/History/Final.antt =====
-- engine/src/api/services/mutation_journal.py: rows that nothing changes any more.
use cloudops_agent.Prelude.{
  suc, ◌⊎◌, inl, inr, ◌≤◌, String, Bool, true, ◌&&◌, ◌||◌, some, ◌≡◌, refl, sym, arith, List, [],
  ◌∷◌,
}
use cloudops_agent.Settings.{Settings}
use cloudops_agent.Mutation.Manifest.{Yaml}
use cloudops_agent.Mutation.Operation.{MutationOperation}
use cloudops_agent.Journal.Rows.{
  is_settled, is_verifiable, is_unsuccessful, mark_executing, record_execution, claim_verification,
  record_verification, abandon_verification, recover_execution, recover_verification,
  cancel_prepared, interrupt_executing, is_stale_execution, is_stale_verification,
}
use cloudops_agent.Journal.Table.{Table, find_row}
use cloudops_agent.Journal.Steps.{
  Event, apply, run, RowStep, idle, started, finished, claimed, concluded, abandoned, recovered,
  released, cancelled, interrupted,
}
use cloudops_agent.Journal.Steps.Apply.{apply-RowStep}
use cloudops_agent.Journal.Invariant.{IsConsistent}

-- The operation has failed or was cancelled, or its verification has come to an end.
abbrev pub is_over : MutationOperation → Bool
is_over op =
    is_unsuccessful op.execution_status
    || is_verifiable op.execution_status && is_settled op.verification_status

module _ (settings : Settings) where
  RowStep-frozen :
      {op op' : MutationOperation}
      → RowStep settings op op'
      → IsConsistent settings op
      → is_over op ≡ true
      → op' ≡ op
  unfolding mark_executing record_execution claim_verification record_verification
      abandon_verification is_stale_execution is_stale_verification
  RowStep-frozen (idle e) c h = e
  RowStep-frozen (started clock owner r e) c h = ground arith
  RowStep-frozen (finished clock status result error r o e) c h = ground arith
  RowStep-frozen (claimed clock owner r e) c h = ground arith
  RowStep-frozen (concluded clock owner status result reference r o e) c h = ground arith
  RowStep-frozen (abandoned clock owner reason r e) c h = ground arith
  RowStep-frozen (recovered now s e) c h = ground arith
  RowStep-frozen (released now s e) c h = ground arith
  RowStep-frozen (cancelled now s e) c h = ground arith
  RowStep-frozen (interrupted now s e) c h = ground arith

  RowStep-version :
      {op op' : MutationOperation}
      → RowStep settings op op'
      → (op' ≡ op) ⊎ (suc op.version ≤ op'.version)
  unfolding mark_executing record_execution claim_verification record_verification
      abandon_verification recover_execution recover_verification cancel_prepared
      interrupt_executing
  RowStep-version (idle e) = inl e
  RowStep-version (started clock owner r e) = inr (ground arith)
  RowStep-version (finished clock status result error r o e) = inr (ground arith)
  RowStep-version (claimed clock owner r e) = inr (ground arith)
  RowStep-version (concluded clock owner status result reference r o e) = inr (ground arith)
  RowStep-version (abandoned clock owner reason r e) = inr (ground arith)
  RowStep-version (recovered now s e) = inr (ground arith)
  RowStep-version (released now s e) = inr (ground arith)
  RowStep-version (cancelled now s e) = inr (ground arith)
  RowStep-version (interrupted now s e) = inr (ground arith)

module _ (settings : Settings) (yaml : Yaml) (digest : String → String → String) where
  -- A consistent row whose execution failed or was cancelled, or whose verification is settled after a
  -- reported success or an unknown outcome, is the same row after all later journal calls.
  pub run-frozen :
      (es : List Event) (t : Table) (id : String) (op : MutationOperation)
      → find_row id t ≡ some op
      → IsConsistent settings op
      → is_over op ≡ true
      → find_row id (run settings yaml digest es t) ≡ some op
  unfolding run
  run-frozen [] t id op there c over = there
  run-frozen (e ∷ es) t id op there c over =
      let (op', new, step) = apply-RowStep settings yaml digest e t id op there in
      run-frozen es (apply settings yaml digest e t) id op
        (rw (sym (RowStep-frozen settings step c over)) new) c over

  -- A row of the journal is never deleted, and after any sequence of journal calls it is either the
  -- row that it was or has a greater version: a reader who finds the same version finds the same row.
  pub run-version :
      (es : List Event) (t : Table) (id : String) (op : MutationOperation)
      → find_row id t ≡ some op
      → (op' : MutationOperation) × (find_row id (run settings yaml digest es t) ≡ some op')
        × ((op' ≡ op) ⊎ (suc op.version ≤ op'.version))
  unfolding run
  run-version [] t id op there = (op, there, inl refl)
  run-version (e ∷ es) t id op there =
      let (op1, new, step) = apply-RowStep settings yaml digest e t id op there in
      let (op2, last, more) = run-version es (apply settings yaml digest e t) id op1 new in
      (op2, last, later op1 op2 (RowStep-version settings step) more)
    where
      later :
          (op1 op2 : MutationOperation)
          → (op1 ≡ op) ⊎ (suc op.version ≤ op1.version)
          → (op2 ≡ op1) ⊎ (suc op1.version ≤ op2.version)
          → (op2 ≡ op) ⊎ (suc op.version ≤ op2.version)
      later op1 op2 a b = ground arith
