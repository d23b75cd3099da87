-- ===== src/Journal/Stop.antt =====
-- engine/src/api/services/mutation_journal.py: what a stop leaves of a run, and who may verify.
use Prim.Native.String.{◌++◌}
use cloudops_agent.Prelude.{String, true, false, Option, some, ◌≡◌, refl, arith, ap, ◌∙◌, ◌==◌}
use cloudops_agent.Json.{Value}
use cloudops_agent.Settings.{Settings}
use cloudops_agent.Mutation.Operation.{
  MutationOperation, VerificationStatus, needs_review, is_verifying,
}
use cloudops_agent.Journal.Rows.{
  Clock, invalid_transition, give_up, save, raise, leave, claim_verification, record_verification,
  abandon_verification, lease_active, verification_budget_exhausted, later_than, owned_by,
  is_verifiable, is_settled,
}

-- What a claim leaves in the row.
record IsHeld (owner : String) (op : MutationOperation) : Type 0 where
  verifying : is_verifying op.verification_status ≡ true
  unsettled : is_settled op.verification_status ≡ false
  verifiable : is_verifiable op.execution_status ≡ true
  held_by : op.verification_lease_owner ≡ some owner

module _ (settings : Settings) (clock later : Clock) (mine other : String)
    (op held r : MutationOperation) where
  claim_verification-IsHeld :
      claim_verification settings clock mine op ≡ save held (r, true) → IsHeld mine held
  unfolding claim_verification
  claim_verification-IsHeld claimed = ground arith

  -- While a worker's claim of a verification lasts, and the verification budget with it, no other
  -- worker can claim the operation, record a result for it, or abandon it.
  pub claim_verification_excludes :
      (status : VerificationStatus) (result : Value) (reference : Option Value) (reason : String)
      → claim_verification settings clock mine op ≡ save held (r, true)
      → (mine == other) ≡ false
      → later_than held.verification_lease_expires_at (later 0) ≡ true
      → verification_budget_exhausted settings held (later 0) ≡ false
      → (claim_verification settings later other held ≡ leave (held, false))
        × (record_verification later other status result reference held
            ≡ raise (
                invalid_transition
                  ("Verification lease for " ++ held.id ++ " is owned by another worker")))
        × (abandon_verification later other reason held ≡ leave false)
  unfolding claim_verification record_verification abandon_verification lease_active
  claim_verification_excludes status result reference reason claimed differ lasts budget =
      let h = claim_verification-IsHeld claimed in
      let foreign : owned_by held.verification_lease_owner other ≡ false =
        ap (λ (o : Option String). owned_by o other) h.held_by ∙ differ in
      (
        rw (h.verifiable, h.unsettled, budget, h.verifying, lasts, foreign) refl,
        rw (h.verifying, foreign) refl,
        rw (h.verifying, foreign) refl,
      )

  -- Once the claim that a worker holds was the last that the budget allows, a claim by any other worker
  -- takes it away although its lease lasts: the row turns NEEDS_REVIEW, and the result that the
  -- first worker then records is refused.
  pub claim_verification_evicts :
      (status : VerificationStatus) (result : Value) (reference : Option Value)
      → claim_verification settings clock mine op ≡ save held (r, true)
      → later_than held.verification_lease_expires_at (later 0) ≡ true
      → verification_budget_exhausted settings held (later 0) ≡ true
      → (claim_verification settings later other held
          ≡ save (give_up settings later held) (give_up settings later held, false))
        × ((give_up settings later held).verification_status ≡ needs_review)
        × (record_verification later mine status result reference (give_up settings later held)
            ≡ raise (
                invalid_transition
                  ("Cannot record verification for " ++ held.id ++ " from needs_review")))
  unfolding claim_verification record_verification give_up
  claim_verification_evicts status result reference claimed lasts budget =
      let h = claim_verification-IsHeld claimed in
      (rw (h.verifiable, h.unsettled, budget) refl, refl, refl)
