-- ===== src/Journal/Table/Store.antt =====
-- engine/src/api/services/mutation_journal.py: the table, and the queries and updates of it that the methods use.
use cloudops_agent.Prelude.{
  ℕ, suc, String, Bool, Option, none, some, List, [], ◌∷◌, ◌==◌, if◌then◌else◌,
}
use cloudops_agent.Mutation.Operation.{MutationOperation}
use cloudops_agent.Journal.Rows.{Error, does_not_exist, Action, raise, leave, save}

pub data Result {ℓ} (A : Type ℓ) : Type ℓ where
  ok : A → Result A
  err : Error → Result A

abbrev pub Table : Type 0
Table = List MutationOperation

-- MutationOperation.get_or_none(id=…)
unfoldable pub find_row : String → Table → Option MutationOperation
find_row id [] = none
find_row id (op ∷ rest) = if op.id == id then some op else find_row id rest

unfoldable pub write_row : MutationOperation → Table → Table
write_row op' [] = []
write_row op' (op ∷ rest) = if op.id == op'.id then op' ∷ rest else op ∷ write_row op' rest

abbrev pub commit {ℓ} : {A : Type ℓ} → Action A → Table → Result A × Table
commit (raise e) t = (err e, t)
commit (leave a) t = (ok a, t)
commit (save op a) t = (ok a, write_row op t)

-- `in_transaction`, the row under `select_for_update`
abbrev pub on_row {ℓ} :
    {A : Type ℓ}
    → Option MutationOperation
    → (MutationOperation → Action A)
    → Table
    → Result A × Table
on_row none f t = (err does_not_exist, t)
on_row (some op) f t = commit (f op) t

unfoldable pub locked {ℓ} :
    {A : Type ℓ} → String → (MutationOperation → Action A) → Table → Result A × Table
locked id f t = on_row (find_row id t) f t

-- `filter(…).update(…)`, with the number of rows written
unfoldable pub update_where :
    (MutationOperation → Bool) → (MutationOperation → MutationOperation) → Table → ℕ × Table
update_where p f [] = (0, [])
update_where p f (op ∷ rest) =
    let (n, rest') = update_where p f rest in
    if p op then (suc n, f op ∷ rest') else (n, op ∷ rest')
