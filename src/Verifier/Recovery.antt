-- ===== src/Verifier/Recovery.antt =====
-- engine/src/api/services/mutation_verifier.py: `MutationRecoveryWorker`, one pass of it. The rows come
-- in the order of the table, since the query names none. The loop of `_run`, its waits and the log are
-- left out, and so is what the callback does with what it is given.
pub mod Calls
pub mod Unstarted
pub mod Repeats
pub mod Published
use cloudops_agent.Prelude.{
  ℕ, suc, ◌+◌, String, Bool, true, false, ◌&&◌, ◌||◌, Option, none, some, List, [], ◌∷◌, ◌++◌, ltb,
  ◌>>=◌, filter, take, if◌then◌else◌,
}
use cloudops_agent.Settings.{Settings, seconds}
use cloudops_agent.Mutation.Operation.{
  MutationOperation, ExecutionStatus, VerificationStatus, unknown, reported_success, pending,
  inconclusive, passed, verification_failed, needs_review,
}
use cloudops_agent.Journal.Rows.{Clock}
use cloudops_agent.Journal.Table.{
  Table, Result, ok, err, find_row, recover_stale_executions, recover_stale_verifications,
}
use cloudops_agent.Verifier.Loop.{Pass, Answer, verify}

-- What the verification of one operation meets; `before`, `during` and `after` are what other workers do to the
-- journal before it, between its claim and its record, and before the callback's row is read.
pub record Visit : Type 0 where
  pub clock : Clock
  pub later_clock : Clock
  pub owner : String
  pub kubernetes : ℕ → Pass
  pub helm : ℕ → Pass
  pub started : ℕ
  pub time : ℕ → ℕ
  pub before : Table → Table
  pub during : Table → Table
  pub after : Table → Table
  pub fuel : ℕ

-- A pass so far: the count it returns, what the callback was given, and the journal.
pub record Recovery : Type 0 where
  pub reconciled : ℕ
  pub published : List (MutationOperation × Answer)
  pub table : Table

abbrev pub awaits_verification : VerificationStatus → Bool
awaits_verification pending = true
awaits_verification inconclusive = true
awaits_verification _ = false

abbrev pub may_have_executed : ExecutionStatus → Bool
may_have_executed unknown = true
may_have_executed reported_success = true
may_have_executed _ = false

-- result.get("status") in {…}
abbrev pub is_published : Option VerificationStatus → Bool
is_published (some passed) = true
is_published (some verification_failed) = true
is_published (some needs_review) = true
is_published _ = false

-- The callback gets the row that `journal.get` finds, where it finds one.
abbrev pub publication : Option MutationOperation → Answer → List (MutationOperation × Answer)
publication none answer = []
publication (some op) answer = (op, answer) ∷ []

-- `has_callback` is `self.on_reconciled` not being None.
abbrev pub published_by : Bool → String → Answer → Table → List (MutationOperation × Answer)
published_by has_callback id answer t =
    if has_callback && is_published answer.status then publication (find_row id t) answer else []

-- An exception of `verify` is logged, and the operation is not counted.
abbrev pub reconciled_by :
    Bool → (Table → Table) → String → Result Answer × Table → Recovery → Recovery
reconciled_by has_callback after id (err e, t) r = record r { table = t }
reconciled_by has_callback after id (ok answer, t) r = record {
  reconciled = suc r.reconciled;
  published = r.published ++ published_by has_callback id answer (after t);
  table = after t;
}

module _ (settings : Settings) where
  unfoldable pub is_due : ℕ → MutationOperation → Bool
  is_due now op =
      may_have_executed op.execution_status
      && awaits_verification op.verification_status
      && ltb (op.updated_at + seconds settings.mutation_recovery_grace_seconds) now

  unfoldable pub due_operations : ℕ → Table → List MutationOperation
  due_operations now t = take settings.mutation_recovery_batch_size (filter (is_due now) t)

  module _ (has_callback : Bool) (visit : String → Visit) where
    abbrev pub verified_by : String → Visit → Table → Option (Result Answer × Table)
    verified_by id v t =
        verify settings v.clock v.later_clock id v.owner v.kubernetes v.helm v.started v.time
          v.during v.fuel (v.before t)

    unfoldable pub reconcile_one : String → Recovery → Option Recovery
    reconcile_one id r = do
      result ← verified_by id (visit id) r.table
      some (reconciled_by has_callback (visit id).after id result r)

    unfoldable pub reconcile_all : List MutationOperation → Recovery → Option Recovery
    reconcile_all [] r = some r
    reconcile_all (op ∷ ops) r = do r' ← reconcile_one op.id r; reconcile_all ops r'

    module _ (execution_now verification_now cutoff_now : ℕ) (between : Table → Table) where
      -- The two calls that `start` and each pass begin with.
      unfoldable pub recover_stale : Table → Table
      recover_stale t =
          (recover_stale_verifications verification_now
            (between (recover_stale_executions execution_now t).1)).1

      -- `none` where the fuel of a verification ends before its loop does
      unfoldable pub reconcile_once : Table → Option Recovery
      reconcile_once t =
          let recovered = recover_stale t in
          reconcile_all (due_operations cutoff_now recovered)
            (record { reconciled = 0; published = []; table = recovered })
