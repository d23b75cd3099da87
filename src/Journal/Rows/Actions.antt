-- ===== src/Journal/Rows/Actions.antt =====
-- engine/src/api/services/mutation_journal.py: what a method can do with the row that it has locked.
use cloudops_agent.Prelude.{ℕ, String}
use cloudops_agent.Mutation.Operation.{MutationOperation}

pub data Error : Type 0 where
  invalid_transition : String → Error
  does_not_exist : Error
  integrity_error : Error

-- What a method does with the row that it has locked: raise, return with the row as it is, or save
-- and return.
pub data Action {ℓ} (A : Type ℓ) : Type ℓ where
  raise : Error → Action A
  leave : A → Action A
  save : MutationOperation → A → Action A

abbrev pub Clock : Type 0
Clock = ℕ → ℕ
