-- ===== src/Journal/History/Redacted.antt =====
-- engine/src/api/services/mutation_journal.py: nothing sensitive reaches the journal.
use cloudops_agent.Prelude.{
  String, Bool, true, false, none, some, ◌≡◌, refl, arith, List, subst, sym,
}
use cloudops_agent.Text.{lower}
use cloudops_agent.Json.{ℤ, pos, num, bool, Value, str, obj, Fields, done, field}
use cloudops_agent.Settings.{Settings}
use cloudops_agent.Mutation.Manifest.{Yaml}
use cloudops_agent.Mutation.Redact.{is_sensitive, search_from, word_at, ends_word, redacted}
use cloudops_agent.Mutation.Redact.Laws.{IsClean, HasCleanFields, redact_sensitive-IsClean}
use cloudops_agent.Mutation.Operation.{MutationOperation}
use cloudops_agent.Policy.{MutationPolicyDecision}
use cloudops_agent.Journal.Rows.{
  or_no_fields, whole_seconds, Clock, mark_executing, record_execution, claim_verification,
  record_verification, abandon_verification, recover_execution, recover_verification,
  cancel_prepared, interrupt_executing,
}
use cloudops_agent.Journal.Table.{Table, Context, find_row, new_operation}
use cloudops_agent.Journal.Steps.{
  Event, run, RowStep, idle, started, finished, claimed, concluded, abandoned, recovered, released,
  cancelled, interrupted,
}
use cloudops_agent.Journal.History.{run-Everywhere}

-- What the journal keeps of results, errors and evidence is redacted.
pub record IsRedacted (op : MutationOperation) : Type 0 where
  pub execution_result : IsClean op.execution_result
  pub execution_error : IsClean op.execution_error
  pub verification_result : IsClean op.verification_result
  pub external_reference : IsClean op.external_reference

-- The keys that the journal itself writes are not sensitive.
plain : (k : String) {v : Value} → is_sensitive k ≡ false → is_sensitive k ≡ true → v ≡ redacted
plain k n y = cc

clean_reason :
    (why : String) (fs : Fields) → HasCleanFields fs → HasCleanFields (field "reason" (str why) fs)
unfolding is_sensitive lower search_from word_at ends_word
clean_reason why fs h = (plain "reason" refl, tt, h)

clean_error :
    (what : String) (fs : Fields)
    → HasCleanFields fs
    → HasCleanFields (field "error_type" (str what) fs)
unfolding is_sensitive lower search_from word_at ends_word
clean_error what fs h = (plain "error_type" refl, tt, h)

clean_ambiguous : (b : Bool) → HasCleanFields (field "ambiguous_outcome" (bool b) done)
unfolding is_sensitive lower search_from word_at ends_word
clean_ambiguous b = (plain "ambiguous_outcome" refl, tt, tt)

IsClean-budget :
    (why : String) (n age : ℤ) (b : Bool)
    → IsClean (
        obj (
          field "reason" (str why) (
            field "verification_attempt_count"
              (num n)
              (field "age_seconds" (num age) (field "manual_review_required" (bool b) done)))))
unfolding is_sensitive lower search_from word_at ends_word
IsClean-budget why n age b = (
  plain "reason" refl,
  tt,
  (
    plain "verification_attempt_count" refl,
    tt,
    (plain "age_seconds" refl, tt, (plain "manual_review_required" refl, tt, tt)),
  ),
)

module _ (settings : Settings) where
  RowStep-IsRedacted :
      {op op' : MutationOperation} → RowStep settings op op' → IsRedacted op → IsRedacted op'
  unfolding mark_executing record_execution claim_verification record_verification
      abandon_verification recover_execution recover_verification cancel_prepared
      interrupt_executing
  RowStep-IsRedacted (idle e) h = subst IsRedacted (sym e) h
  RowStep-IsRedacted {op} {op'} (started clock owner r e) h = ground arith
  RowStep-IsRedacted {op} {op'} (finished clock status result error r o e) h = ground (
    arith,
    redact_sensitive-IsClean (or_no_fields result),
    redact_sensitive-IsClean (or_no_fields error),
  )
  RowStep-IsRedacted {op} {op'} (claimed clock owner r e) h = ground (
    arith,
    IsClean-budget "verification_budget_exhausted" (pos op.verification_attempt_count)
        (whole_seconds op.created_at (clock 0)) true,
  )
  RowStep-IsRedacted {op} {op'} (concluded clock owner status result none r o e) h =
      ground (arith, redact_sensitive-IsClean result)
  RowStep-IsRedacted {op} {op'} (concluded clock owner status result (some reference) r o e) h =
      ground (arith, redact_sensitive-IsClean result, redact_sensitive-IsClean reference)
  RowStep-IsRedacted {op} {op'} (abandoned clock owner reason r e) h =
      ground (arith, redact_sensitive-IsClean (obj (field "reason" (str reason) done)))
  RowStep-IsRedacted {op} (recovered now s e) h = ground arith
  RowStep-IsRedacted {op} (released now s e) h =
      ground (arith, clean_reason "verification_lease_expired" done tt)
  RowStep-IsRedacted {op} (cancelled now s e) h =
      ground (arith, clean_error "cancelled_before_execution" done tt)
  RowStep-IsRedacted {op} (interrupted now s e) h = ground (
    arith,
    clean_error "cancelled" (field "ambiguous_outcome" (bool true) done) (clean_ambiguous true),
  )

module _ (settings : Settings) (yaml : Yaml) (digest : String → String → String) where
  fresh-IsRedacted :
      (clock : Clock) (id key run_id call_id tool : String) (args : Fields) (context : Context)
      (policy : MutationPolicyDecision) (plan : Fields) (hmac : String)
      → IsRedacted (
          new_operation settings yaml digest clock id key run_id call_id tool args context policy
            plan hmac)
  unfolding new_operation
  fresh-IsRedacted clock id key run_id call_id tool args context policy plan hmac = ground arith

  -- After any journal calls, in any order, from a journal that is redacted, no row keeps a value under
  -- a sensitive key, at any depth, in its execution result, execution error, verification result or
  -- external reference, whatever the callers hand over.
  pub run-IsRedacted :
      (es : List Event) (t : Table)
      → ((id : String) (op : MutationOperation) → find_row id t ≡ some op → IsRedacted op)
      → (id : String) (op : MutationOperation)
      → find_row id (run settings yaml digest es t) ≡ some op
      → IsRedacted op
  run-IsRedacted =
      run-Everywhere settings yaml digest IsRedacted fresh-IsRedacted
        (λ op op' step. RowStep-IsRedacted settings step)
