-- ===== src/Journal/Lookup.antt =====
-- Reading a row after a write to the table.
use mathlib.Core.Option
use cloudops_agent.Prelude.{
  String, Bool, none, some, is_some, ◌≡◌, refl, ◌∙◌, arith, [], ◌∷◌, ◌++◌, inl, inr, Bool-cases,
  eq_iff, ◌==◌, if◌then◌else◌,
}
use cloudops_agent.Mutation.Operation.{MutationOperation}
use cloudops_agent.Journal.Table.{Table, find_row, write_row, update_where}

pub find_row-id :
    (id : String) (t : Table) (op : MutationOperation) → find_row id t ≡ some op → op.id ≡ id
unfolding find_row
find_row-id id [] op h = cc
find_row-id id (o ∷ t) op h = elim (Bool-cases (o.id == id)) [
  | inl e ↦ ground (arith, eq_iff o.id id)
  | inr e ↦ find_row-id id t op (rw e at h)
]

pub find_row-write_row :
    (id : String) (t : Table) (op op' : MutationOperation)
    → find_row op'.id t ≡ some op
    → find_row id (write_row op' t) ≡ (if op'.id == id then some op' else find_row id t)
unfolding find_row write_row
find_row-write_row id [] op op' h = cc
find_row-write_row id (o ∷ t) op op' h = elim (Bool-cases (o.id == op'.id)) [
  | inl e ↦ ground (arith, eq_iff o.id op'.id, eq_iff o.id id, eq_iff op'.id id)
  | inr e ↦
      ground (
        arith,
        eq_iff o.id op'.id,
        eq_iff o.id id,
        eq_iff op'.id id,
        find_row-write_row id t op op',
      )
]

module _ (p : MutationOperation → Bool) (f : MutationOperation → MutationOperation)
    (same_id : (op : MutationOperation) → (f op).id ≡ op.id) where
  pub find_row-update_where :
      (id : String) (t : Table)
      → find_row id (update_where p f t).1
        ≡ Option.map (λ op. if p op then f op else op) (find_row id t)
  unfolding find_row update_where
  find_row-update_where id [] = refl
  find_row-update_where id (o ∷ t) = ground (arith, same_id o, find_row-update_where id t)

pub find_row-append :
    (id : String) (t : Table) (op : MutationOperation)
    → find_row id (t ++ op ∷ [])
      ≡ (if is_some (find_row id t) then find_row id t else if op.id == id then some op else none)
unfolding find_row
find_row-append id [] op = refl
find_row-append id (o ∷ t) op = ground (arith, find_row-append id t op)

pub find_row-append_absent :
    (id : String) (t : Table) (op : MutationOperation)
    → find_row id t ≡ none
    → find_row id (t ++ op ∷ []) ≡ (if op.id == id then some op else none)
find_row-append_absent id t op h = find_row-append id t op ∙ rw h refl
