-- ===== src/Journal/Steps/Locked.antt =====
-- engine/src/api/services/mutation_journal.py: the methods that lock one row leave the others alone.

use cloudops_agent.Prelude.{
  String, Option, none, some, ◌≡◌, refl, ap, sym, ◌∙◌, arith, ◌⊎◌, inl, inr, Bool-cases,
  Option-cases, some_inj, eq_iff, ◌==◌,
}
use cloudops_agent.Json.{Value}
use cloudops_agent.Settings.{Settings}
use cloudops_agent.Mutation.Operation.{MutationOperation, ExecutionStatus, VerificationStatus}
use cloudops_agent.Journal.Rows.{
  Action, raise, leave, save, Clock, mark_executing, record_execution, claim_verification,
  record_verification, abandon_verification,
}
use cloudops_agent.Journal.Table.{Table, find_row, commit, locked}
use cloudops_agent.Journal.Lookup.{find_row-id, find_row-write_row}
use cloudops_agent.Journal.Steps.{RowStep, idle}

-- A method that locks a row keeps its identifier, and touches no other row.
abbrev pub Touched {ℓ} :
    {A : Type ℓ} → (MutationOperation → Action A) → MutationOperation → MutationOperation → Type ℓ
Touched {A = A} f op op' = (r : A) × (f op ≡ save op' r)

abbrev pub KeepsId {ℓ} : {A : Type ℓ} → (MutationOperation → Action A) → Type ℓ
KeepsId {A = A} f = (op op' : MutationOperation) (r : A) → f op ≡ save op' r → op'.id ≡ op.id

module _ {ℓ} {A : Type ℓ} (f : MutationOperation → Action A) (keeps : KeepsId f) where
  commit-row :
      (id : String) (t : Table) (locked_op : MutationOperation) (a : Action A)
      → f locked_op ≡ a
      → find_row id t ≡ some locked_op
      → (j : String) (op : MutationOperation) → find_row j t ≡ some op
      → (op' : MutationOperation) × (find_row j (commit a t).1 ≡ some op')
        × ((op' ≡ op) ⊎ Touched f op op')
  commit-row id t o (raise e) fa here j op h = (op, h, inl refl)
  commit-row id t o (leave r) fa here j op h = (op, h, inl refl)
  commit-row id t o (save o' r) fa here j op h =
      let oid : o'.id ≡ id = keeps o o' r fa ∙ find_row-id id t o here in
      let there : find_row o'.id t ≡ some o = ap (λ (k : String). find_row k t) oid ∙ here in
      let result = find_row-write_row j t o o' there in
      elim (Bool-cases (o'.id == j)) [
        | inl e ↦
            let same : some o ≡ some op =
              sym there ∙ ap (λ (k : String). find_row k t) ((eq_iff o'.id j).0 e) ∙ h in
            (o', result ∙ rw e refl, inr (r, ap f (sym (some_inj same)) ∙ fa))
        | inr e ↦ (op, result ∙ rw e h, inl refl)
      ]

  pub locked-row :
      (id : String) (t : Table) (j : String) (op : MutationOperation)
      → find_row j t ≡ some op
      → (op' : MutationOperation) × (find_row j (locked id f t).1 ≡ some op')
        × ((op' ≡ op) ⊎ Touched f op op')
  unfolding locked
  locked-row id t j op h = elim (Option-cases (find_row id t)) [
    | inl absent ↦ rw absent (op, h, inl refl)
    | inr (o, here) ↦ rw here (commit-row id t o (f o) refl here j op h)
  ]

  commit-none :
      (id : String) (t : Table) (o : MutationOperation) (a : Action A)
      → f o ≡ a
      → find_row id t ≡ some o
      → (j : String) → find_row j t ≡ none
      → find_row j (commit a t).1 ≡ none
  commit-none id t o (raise e) fa here j h = h
  commit-none id t o (leave r) fa here j h = h
  commit-none id t o (save o' r) fa here j h =
      let oid : o'.id ≡ id = keeps o o' r fa ∙ find_row-id id t o here in
      let there : find_row o'.id t ≡ some o = ap (λ (k : String). find_row k t) oid ∙ here in
      let result = find_row-write_row j t o o' there in
      elim (Bool-cases (o'.id == j)) [
        | inl e ↦
            let clash : some o ≡ none =
              sym there ∙ ap (λ (k : String). find_row k t) ((eq_iff o'.id j).0 e) ∙ h in
            cc
        | inr e ↦ result ∙ rw e h
      ]

  pub locked-none :
      (id : String) (t : Table) (j : String)
      → find_row j t ≡ none
      → find_row j (locked id f t).1 ≡ none
  unfolding locked
  locked-none id t j h = elim (Option-cases (find_row id t)) [
    | inl absent ↦ rw absent h
    | inr (o, here) ↦ rw here (commit-none id t o (f o) refl here j h)
  ]

module _ (settings : Settings) (clock : Clock) where
  pub mark_executing-keeps : (owner : String) → KeepsId (mark_executing settings clock owner)
  unfolding mark_executing
  mark_executing-keeps owner op op' r e = ground arith

  pub record_execution-keeps :
      (status : ExecutionStatus) (result error : Option Value)
      → KeepsId (record_execution clock status result error)
  unfolding record_execution
  record_execution-keeps status result error op op' r e = ground arith

  pub claim_verification-keeps :
      (owner : String) → KeepsId (claim_verification settings clock owner)
  unfolding claim_verification
  claim_verification-keeps owner op op' r e = ground arith

  pub record_verification-keeps :
      (owner : String) (status : VerificationStatus) (result : Value) (reference : Option Value)
      → KeepsId (record_verification clock owner status result reference)
  unfolding record_verification
  record_verification-keeps owner status result reference op op' r e = ground arith

  pub abandon_verification-keeps :
      (owner reason : String) → KeepsId (abandon_verification clock owner reason)
  unfolding abandon_verification
  abandon_verification-keeps owner reason op op' r e = ground arith

module _ {ℓ} {A : Type ℓ} (settings : Settings) (f : MutationOperation → Action A)
    (keeps : KeepsId f)
    (step : (op op' : MutationOperation) (r : A)
      → f op ≡ save op' r
      → RowStep settings op op') where
  pub locked-RowStep :
      (id : String) (t : Table) (j : String) (op : MutationOperation)
      → find_row j t ≡ some op
      → (op' : MutationOperation) × (find_row j (locked id f t).1 ≡ some op')
        × RowStep settings op op'
  locked-RowStep id t j op h =
      let (op', there, how) = locked-row f keeps id t j op h in
      elim how [ inl same ↦ (op', there, idle same) | inr (r, e) ↦ (op', there, step op op' r e) ]
