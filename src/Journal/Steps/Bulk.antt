-- ===== src/Journal/Steps/Bulk.antt =====
-- engine/src/api/services/mutation_journal.py: the bulk updates, row by row.

use cloudops_agent.Prelude.{ℕ, String, Bool, true, none, some, ◌≡◌, refl, ◌∙◌, inl, inr, Bool-cases}
use cloudops_agent.Settings.{Settings}
use cloudops_agent.Mutation.Operation.{MutationOperation}
use cloudops_agent.Journal.Rows.{
  recover_execution, recover_verification, cancel_prepared, interrupt_executing,
}
use cloudops_agent.Journal.Table.{Table, find_row, update_where}
use cloudops_agent.Journal.Lookup.{find_row-update_where}
use cloudops_agent.Journal.Steps.{RowStep, idle}

-- A bulk update that turns the rows of its filter into a row of the step relation.
module _ (settings : Settings) (p : MutationOperation → Bool)
    (f : MutationOperation → MutationOperation)
    (same_id : (op : MutationOperation) → (f op).id ≡ op.id)
    (step : (op : MutationOperation) → p op ≡ true → RowStep settings op (f op)) where
  pub update_where-RowStep :
      (t : Table) (j : String) (op : MutationOperation)
      → find_row j t ≡ some op
      → (op' : MutationOperation) × (find_row j (update_where p f t).1 ≡ some op')
        × RowStep settings op op'
  update_where-RowStep t j op h =
      let there = find_row-update_where p f same_id j t in
      elim (Bool-cases (p op)) [
        | inl e ↦ (f op, there ∙ rw (h, e) refl, step op e)
        | inr e ↦ (op, there ∙ rw (h, e) refl, idle refl)
      ]

  pub update_where-none :
      (t : Table) (j : String) → find_row j t ≡ none → find_row j (update_where p f t).1 ≡ none
  update_where-none t j h = find_row-update_where p f same_id j t ∙ rw h refl

pub recover_execution-id :
    (now : ℕ) (op : MutationOperation) → (recover_execution now op).id ≡ op.id
unfolding recover_execution
recover_execution-id now op = refl

pub recover_verification-id :
    (now : ℕ) (op : MutationOperation) → (recover_verification now op).id ≡ op.id
unfolding recover_verification
recover_verification-id now op = refl

pub cancel_prepared-id : (now : ℕ) (op : MutationOperation) → (cancel_prepared now op).id ≡ op.id
unfolding cancel_prepared
cancel_prepared-id now op = refl

pub interrupt_executing-id :
    (now : ℕ) (op : MutationOperation) → (interrupt_executing now op).id ≡ op.id
unfolding interrupt_executing
interrupt_executing-id now op = refl
