-- ===== src/Verifier/Tests/Recovery.antt =====
-- A recovery pass over a row whose execution is UNKNOWN.
use cloudops_agent.Prelude.{
  Bool, ℕ, ◌≤◌, String, true, false, Option, none, some, [], ◌∷◌, ◌≡◌, refl, All, arith,
}
use cloudops_agent.Json.{done}
use cloudops_agent.Json.Access.{lookup, insert}
use cloudops_agent.Mutation.Redact.{redact_sensitive, redact_fields}
use cloudops_agent.Mutation.Operation.{MutationOperation, executing}
use cloudops_agent.Journal.Rows.{
  claim_verification, record_verification, abandon_verification, lease_active,
  verification_budget_exhausted, expired, is_stale_execution, is_stale_verification,
  recover_execution, recover_verification,
}
use cloudops_agent.Journal.Table.{
  Table, Result, ok, claim_verification_row, locked, find_row, write_row, update_where,
  recover_stale_executions, recover_stale_verifications,
}
use cloudops_agent.Verifier.Loop.{Pass, gave, verify, passes, concluded}
use cloudops_agent.Verifier.Cancelled.{verify_cancelled, holds_lease, verify_cancelled-released}
use cloudops_agent.Verifier.Recovery.{
  Visit, Recovery, is_due, due_operations, reconcile_one, reconcile_all, recover_stale,
  reconcile_once,
}
use cloudops_agent.Verifier.Recovery.Calls.{Calls, Calls-refl}
use cloudops_agent.Verifier.Recovery.Unstarted.{Kept}
use cloudops_agent.Verifier.Recovery.Repeats.{reconcile_once-Kept}
use cloudops_agent.Verifier.Recovery.Published.{IsBacked, AllConsistent, reconcile_once-IsBacked}
use cloudops_agent.Verifier.Tests.{settings, reader, row, clock, time}

abbrev passing : ℕ → Pass
passing n = gave true false done

abbrev visit : String → Visit
visit id = record {
  clock = clock;
  later_clock = clock;
  owner = "recovery:1";
  kubernetes = passing;
  helm = passing;
  started = 0;
  time = time;
  before = λ t. t;
  during = λ t. t;
  after = λ t. t;
  fuel = 50;
}

abbrev abandoned_row : MutationOperation
abandoned_row = record row {
  execution_status = executing;
  lease_owner = some "run:1";
  lease_expires_at = some 0;
}

abbrev abandoned_rows : Table
abandoned_rows = abandoned_row ∷ []

-- The pass comes long after the recovery.
abbrev pass_result : Option Recovery
pass_result = reconcile_once settings true visit 5 5 100000000 (λ t. t) abandoned_rows

abbrev recovery_or : Option Recovery → Recovery
recovery_or none = record { reconciled = 0; published = []; table = [] }
recovery_or (some r) = r

pass_result-some : pass_result ≡ some (recovery_or pass_result)
unfolding reconcile_once recover_stale recover_stale_executions recover_stale_verifications
    update_where is_stale_execution is_stale_verification recover_execution recover_verification
    expired due_operations is_due reconcile_all reconcile_one verify passes locked find_row
    write_row claim_verification record_verification lease_active verification_budget_exhausted
    concluded lookup redact_sensitive redact_fields insert
pass_result-some = refl

-- The row is recovered as UNKNOWN, verified, counted and published.
reconciled_one : (recovery_or pass_result).reconciled ≡ 1
unfolding reconcile_once recover_stale recover_stale_executions recover_stale_verifications
    update_where is_stale_execution is_stale_verification recover_execution recover_verification
    expired due_operations is_due reconcile_all reconcile_one verify passes locked find_row
    write_row claim_verification record_verification lease_active verification_budget_exhausted
    concluded lookup redact_sensitive redact_fields insert
reconciled_one = refl

abbrev digest : String → String → String
digest key payload = payload

alone : (with_starts : Bool) (t : Table) → Calls settings reader digest with_starts t t
alone with_starts t = Calls-refl settings reader digest with_starts t

abandoned_found : find_row "op-1" abandoned_rows ≡ some abandoned_row
unfolding find_row
abandoned_found = refl

abandoned_rows-AllConsistent : AllConsistent settings abandoned_rows
unfolding find_row
abandoned_rows-AllConsistent id op h = ground arith

reconcile_once-Kept_example : Kept "op-1" abandoned_row (recovery_or pass_result).table
reconcile_once-Kept_example =
    reconcile_once-Kept settings reader digest true visit (λ id. alone false) (λ id. alone false)
      (λ id. alone false) 5 5 100000000 (λ t. t) (alone false) abandoned_rows
      (recovery_or pass_result) "op-1" abandoned_row pass_result-some abandoned_found

reconcile_once-IsBacked_example :
    All IsBacked (recovery_or pass_result).published × ((recovery_or pass_result).reconciled ≤ 10)
reconcile_once-IsBacked_example =
    reconcile_once-IsBacked settings reader digest true visit (λ id. alone true) (λ id. alone true)
      (λ id. alone true) 5 5 100000000 (λ t. t) (alone true) abandoned_rows
      (recovery_or pass_result) abandoned_rows-AllConsistent pass_result-some

abbrev claim : Result (MutationOperation × Bool) × Table
claim = claim_verification_row settings clock "op-1" "v1" (row ∷ [])

abbrev claimed_row : Result (MutationOperation × Bool) × Table → MutationOperation
claimed_row (ok (op, b), t) = op
claimed_row _ = row

claim-ok : claim ≡ (ok (claimed_row claim, true), claim.1)
unfolding locked find_row write_row claim_verification lease_active verification_budget_exhausted
claim-ok = refl

abbrev after_cancel : Table
after_cancel = verify_cancelled settings clock clock "op-1" "v1" (λ t. t) (row ∷ [])

abbrev row_or : Option MutationOperation → MutationOperation
row_or none = row
row_or (some op) = op

abbrev cancelled_row : MutationOperation
cancelled_row = row_or (find_row "op-1" after_cancel)

after_cancel-row : find_row "op-1" after_cancel ≡ some cancelled_row
unfolding verify_cancelled locked find_row write_row claim_verification lease_active
    verification_budget_exhausted abandon_verification redact_sensitive redact_fields
after_cancel-row = refl

verify_cancelled-released_example : holds_lease "v1" cancelled_row ≡ false
verify_cancelled-released_example =
    verify_cancelled-released settings clock clock "op-1" "v1" (λ t. t) (row ∷ [])
      (claimed_row claim) claim.1 cancelled_row claim-ok after_cancel-row
