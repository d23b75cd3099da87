-- ===== src/Journal/Invariant.antt =====
-- engine/src/api/services/mutation_journal.py: what holds of every row between two transitions.
use cloudops_agent.Prelude.{ℕ, ◌≤◌, ◌≡◌, arith, String, Bool, true, false, Option, none, is_some}
use cloudops_agent.Json.{Value}
use cloudops_agent.Settings.{Settings}
use cloudops_agent.Mutation.Operation.{
  ExecutionStatus, VerificationStatus, MutationOperation, is_prepared, is_executing, is_verifying,
  not_required, pending,
}
use cloudops_agent.Journal.Rows.{
  Clock, save, mark_executing, record_execution, claim_verification, record_verification,
  abandon_verification, recover_execution, recover_verification, cancel_prepared,
  interrupt_executing, is_verifiable, is_unsuccessful, is_outcome, is_verification_outcome,
}

abbrev pub is_early : VerificationStatus → Bool
is_early not_required = true
is_early pending = true
is_early _ = false

pub record IsConsistent (settings : Settings) (op : MutationOperation) : Type 0 where
  pub attempts : op.attempt_count ≤ 1
  pub unattempted : is_prepared op.execution_status ≡ true → op.attempt_count ≡ 0
  pub leased :
      is_executing op.execution_status ≡ true
      → (is_some op.lease_owner ≡ true) × (is_some op.lease_expires_at ≡ true)
  pub released :
      is_executing op.execution_status ≡ false
      → (op.lease_owner ≡ none) × (op.lease_expires_at ≡ none)
  pub verifying_leased :
      is_verifying op.verification_status ≡ true
      → (is_some op.verification_lease_owner ≡ true)
        × (is_some op.verification_lease_expires_at ≡ true)
  pub verifying_released :
      is_verifying op.verification_status ≡ false
      → (op.verification_lease_owner ≡ none) × (op.verification_lease_expires_at ≡ none)
  pub early : is_verifiable op.execution_status ≡ false → is_early op.verification_status ≡ true
  pub unsuccessful :
      is_unsuccessful op.execution_status ≡ true → op.verification_status ≡ not_required
  pub verification_attempts :
      op.verification_attempt_count ≤ settings.mutation_max_verification_attempts

module _ (settings : Settings) (clock : Clock) (op op' : MutationOperation)
    (h : IsConsistent settings op) where
  pub mark_executing-IsConsistent :
      (owner : String) {r : MutationOperation}
      → mark_executing settings clock owner op ≡ save op' r
      → IsConsistent settings op'
  unfolding mark_executing
  mark_executing-IsConsistent owner e = ground arith

  pub record_execution-IsConsistent :
      (status : ExecutionStatus) (result error : Option Value) {r : MutationOperation}
      → is_outcome status ≡ true
      → record_execution clock status result error op ≡ save op' r
      → IsConsistent settings op'
  unfolding record_execution
  record_execution-IsConsistent status result error o e = ground arith

  pub claim_verification-IsConsistent :
      (owner : String) {r : MutationOperation × Bool}
      → claim_verification settings clock owner op ≡ save op' r
      → IsConsistent settings op'
  unfolding claim_verification
  claim_verification-IsConsistent owner e = ground arith

  pub record_verification-IsConsistent :
      (owner : String) (status : VerificationStatus) (result : Value) (ref : Option Value)
      {r : MutationOperation}
      → is_verification_outcome status ≡ true
      → record_verification clock owner status result ref op ≡ save op' r
      → IsConsistent settings op'
  unfolding record_verification
  record_verification-IsConsistent owner status result ref o e = ground arith

  pub abandon_verification-IsConsistent :
      (owner reason : String) {r : Bool}
      → abandon_verification clock owner reason op ≡ save op' r
      → IsConsistent settings op'
  unfolding abandon_verification
  abandon_verification-IsConsistent owner reason e = ground arith

module _ (settings : Settings) (now : ℕ) (op : MutationOperation)
    (h : IsConsistent settings op) where
  pub recover_execution-IsConsistent :
      is_executing op.execution_status ≡ true → IsConsistent settings (recover_execution now op)
  unfolding recover_execution
  recover_execution-IsConsistent e = ground arith

  pub recover_verification-IsConsistent :
      is_verifying op.verification_status ≡ true
      → IsConsistent settings (recover_verification now op)
  unfolding recover_verification
  recover_verification-IsConsistent e = ground arith

  pub cancel_prepared-IsConsistent :
      is_prepared op.execution_status ≡ true → IsConsistent settings (cancel_prepared now op)
  unfolding cancel_prepared
  cancel_prepared-IsConsistent e = ground arith

  pub interrupt_executing-IsConsistent :
      is_executing op.execution_status ≡ true → IsConsistent settings (interrupt_executing now op)
  unfolding interrupt_executing
  interrupt_executing-IsConsistent e = ground arith
