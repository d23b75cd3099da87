-- ===== src/Journal/Tests.antt =====
-- The journal at concrete calls.
use cloudops_agent.Prelude.{
  Bool, ◌+◌, ◌≤◌, String, true, false, Option, none, some, List, [], ◌∷◌, ◌≡◌, refl, ◌⊎◌, suc,
}
use cloudops_agent.Json.{str, bool, obj, Fields, done, field}
use cloudops_agent.Json.Access.{lookup}
use cloudops_agent.Settings.{Settings}
use cloudops_agent.Mutation.Manifest.{Yaml}
use cloudops_agent.Mutation.Redact.{redact_sensitive, redact_items, redact_fields}
use cloudops_agent.Mutation.Operation.{MutationOperation, reported_success, passed}
use cloudops_agent.Policy.{MutationPolicyDecision}
use cloudops_agent.Journal.Rows.{
  Clock, mark_executing, record_execution, claim_verification, record_verification, lease_active,
  verification_budget_exhausted,
}
use cloudops_agent.Journal.Table.{
  Table, Context, find_row, prepare, same_intent, first_where, claims, create_or_reuse,
  new_operation, locked, write_row,
}
use cloudops_agent.Journal.Prepare.{prepare-intent, args_hmac_of, key_of, fresh}
use cloudops_agent.Journal.Steps.{
  Event, preparing, starting, finishing, claiming, concluding, run, apply,
}
use Prim.Native.String.{◌++◌}
use cloudops_agent.Journal.Rows.{
  Action, save, raise, leave, later_than, invalid_transition, give_up, abandon_verification,
  cancel_prepared,
}
use cloudops_agent.Journal.Table.{
  converge_stopped_run, cancel_run_prepared, interrupt_run_executing, update_where,
  recover_stale_executions,
}
use cloudops_agent.Journal.Rows.{is_stale_execution}
use cloudops_agent.Journal.Steps.{recovering_executions}
use cloudops_agent.Journal.Converge.{is_refused, converge_stopped_run_ends}
use cloudops_agent.Mutation.Operation.{needs_review, is_prepared, is_executing}
use cloudops_agent.Journal.Stop.{claim_verification_excludes, claim_verification_evicts}
use cloudops_agent.Journal.Invariant.{IsConsistent}
use cloudops_agent.Journal.History.{run-IsConsistent}
use cloudops_agent.Journal.History.Once.{starts_of, starts_of-once}
use cloudops_agent.Journal.History.Redacted.{IsRedacted, run-IsRedacted}
use cloudops_agent.Journal.History.Final.{run-frozen, run-version}

abbrev settings : Settings
settings = record {
  internal_api_key = "key";
  skyflo_environment = "production";
  mutation_control_enabled = true;
  mutation_allowed_namespaces = "default";
  mutation_lease_seconds = 300;
  mutation_verification_lease_seconds = 180;
  mutation_verification_timeout_seconds = 120;
  mutation_verification_interval = 2000000;
  mutation_recovery_grace_seconds = 30;
  mutation_recovery_batch_size = 10;
  mutation_max_verification_attempts = 5;
  mutation_max_verification_age_seconds = 3600;
}

abbrev reader : Yaml
reader = record {
  load_all = λ s. none;
  dump_all = λ ds. "";
  load = λ s. none;
  dump = λ v. "";
  error_text = λ s. "";
  spread_aliases = λ s ds. ds;
}

abbrev digest : String → String → String
digest key payload = payload

abbrev clock : Clock
clock i = 1000000 + i

abbrev context : Context
context = record {
  idempotency_key = some "key-1";
  workspace_id = none;
  conversation_id = some "c1";
  user_id = some "u1";
  user_role = some "admin";
  environment = none;
  approval_decisions = [];
  approval_reasons = [];
}

abbrev policy : MutationPolicyDecision
policy = record {
  allowed = true;
  rule = "admin_allowed_namespace";
  reason = "allowed";
  risk_level = "high";
  targets = [];
}

abbrev args : Fields
args = field "release_name" (str "web") done

abbrev plan : Fields
plan = field "supported" (bool true) done

abbrev row : MutationOperation
row =
    fresh settings reader digest clock (λ t. t) "op-1" "run-1" "call-1" "helm_upgrade" args context
      policy plan []

abbrev created : Event
created = preparing clock "op-1" "run-1" "call-1" "helm_upgrade" args context policy plan

abbrev work : List Event
work =
    starting clock "op-1" "w1"
    ∷ starting clock "op-1" "w2"
    ∷ finishing clock "op-1" reported_success none none
    ∷ claiming clock "op-1" "v1"
    ∷ concluding clock "op-1" "v1" passed (obj (field "token" (str "abc") done)) none
    ∷ []

abbrev journal : Table
journal = run settings reader digest (created ∷ work) []

abbrev or_else_row : Option MutationOperation → MutationOperation
or_else_row none = row
or_else_row (some op) = op

abbrev last_row : MutationOperation
last_row = or_else_row (find_row "op-1" journal)

last_found : find_row "op-1" journal ≡ some last_row
unfolding run apply find_row prepare first_where create_or_reuse new_operation locked mark_executing
    record_execution claim_verification record_verification write_row lease_active
    verification_budget_exhausted redact_sensitive redact_items redact_fields lookup
last_found = refl

no_rows {ℓ} :
    (P : MutationOperation → Type ℓ) (id : String) (op : MutationOperation)
    → find_row id [] ≡ some op
    → P op
unfolding find_row
no_rows P id op h = cc

run-IsConsistent_example : IsConsistent settings last_row
run-IsConsistent_example =
    run-IsConsistent settings reader digest (created ∷ work) [] (no_rows (IsConsistent settings))
      "op-1" last_row last_found

run-IsRedacted_example : IsRedacted last_row
run-IsRedacted_example =
    run-IsRedacted settings reader digest (created ∷ work) [] (no_rows IsRedacted) "op-1" last_row
      last_found

starts_of-once_example : starts_of settings reader digest (created ∷ work) [] "op-1" ≤ 1
unfolding find_row
starts_of-once_example = starts_of-once settings reader digest (created ∷ work) [] "op-1"

run-frozen_example : find_row "op-1" (run settings reader digest work journal) ≡ some last_row
unfolding run apply find_row prepare first_where create_or_reuse new_operation locked mark_executing
    record_execution claim_verification record_verification write_row lease_active
    verification_budget_exhausted redact_sensitive redact_items redact_fields lookup
run-frozen_example =
    run-frozen settings reader digest work journal "op-1" last_row last_found
      (run-IsConsistent settings reader digest (created ∷ work) [] (no_rows (IsConsistent settings))
        "op-1" last_row last_found)
      refl

run-version_example :
    (op' : MutationOperation) × (find_row "op-1" (run settings reader digest work journal)
      ≡ some op')
    × ((op' ≡ last_row) ⊎ (suc last_row.version ≤ op'.version))
run-version_example = run-version settings reader digest work journal "op-1" last_row last_found

prepare-intent_example :
    (same_intent "helm_upgrade" (args_hmac_of settings digest "helm_upgrade" args) row ≡ true)
    × ((true ≡ true)
          × (row ≡ row)
          × (first_where
                (claims "op-1" (key_of settings digest "call-1" "helm_upgrade" args context))
                []
              ≡ none)
        ⊎ (true ≡ false)
          × (claims "op-1" (key_of settings digest "call-1" "helm_upgrade" args context) row
              ≡ true))
unfolding prepare first_where create_or_reuse
prepare-intent_example =
    prepare-intent settings reader digest clock (λ t. t) "op-1" "run-1" "call-1" "helm_upgrade" args
      context policy plan [] row true refl

abbrev reported : MutationOperation
reported = record row { execution_status = reported_success; attempt_count = 1; version = 3 }

abbrev held_of : Action (MutationOperation × Bool) → MutationOperation
held_of (save op r) = op
held_of _ = row

abbrev held : MutationOperation
held = held_of (claim_verification settings clock "v1" reported)

held_claimed : claim_verification settings clock "v1" reported ≡ save held (held, true)
unfolding claim_verification verification_budget_exhausted lease_active new_operation lookup
held_claimed = refl

abbrev soon : Clock
soon i = 2000000 + i

held_lasts : later_than held.verification_lease_expires_at (soon 0) ≡ true
unfolding claim_verification verification_budget_exhausted lease_active new_operation lookup
held_lasts = refl

held_within : verification_budget_exhausted settings held (soon 0) ≡ false
unfolding claim_verification verification_budget_exhausted lease_active new_operation lookup
held_within = refl

claim_verification_excludes_example :
    (claim_verification settings soon "v2" held ≡ leave (held, false))
    × (record_verification soon "v2" passed (obj done) none held
        ≡ raise (
            invalid_transition
              ("Verification lease for " ++ held.id ++ " is owned by another worker")))
    × (abandon_verification soon "v2" "stop" held ≡ leave false)
claim_verification_excludes_example =
    claim_verification_excludes settings clock soon "v1" "v2" reported held held passed (obj done)
      none "stop" held_claimed refl held_lasts held_within

abbrev strict : Settings
strict = record settings { mutation_max_verification_attempts = 1 }

abbrev last_held : MutationOperation
last_held = held_of (claim_verification strict clock "v1" reported)

last_claimed : claim_verification strict clock "v1" reported ≡ save last_held (last_held, true)
unfolding claim_verification verification_budget_exhausted lease_active new_operation lookup
last_claimed = refl

last_lasts : later_than last_held.verification_lease_expires_at (soon 0) ≡ true
unfolding claim_verification verification_budget_exhausted lease_active new_operation lookup
last_lasts = refl

last_spent : verification_budget_exhausted strict last_held (soon 0) ≡ true
unfolding claim_verification verification_budget_exhausted lease_active new_operation lookup
last_spent = refl

claim_verification_evicts_example :
    (claim_verification strict soon "v2" last_held
      ≡ save (give_up strict soon last_held) (give_up strict soon last_held, false))
    × ((give_up strict soon last_held).verification_status ≡ needs_review)
    × (record_verification soon "v1" passed (obj done) none (give_up strict soon last_held)
        ≡ raise (
            invalid_transition
              ("Cannot record verification for " ++ last_held.id ++ " from needs_review")))
claim_verification_evicts_example =
    claim_verification_evicts strict clock soon "v1" "v2" reported last_held last_held passed
      (obj done) none last_claimed last_lasts last_spent

abbrev converged : Table
converged =
    (converge_stopped_run "run-1" 7 (run settings reader digest (recovering_executions 5 ∷ []))
      (row ∷ [])).1

row_cancelled : find_row "op-1" converged ≡ some (cancel_prepared 7 row)
unfolding converge_stopped_run cancel_run_prepared interrupt_run_executing update_where find_row
    new_operation cancel_prepared run apply recover_stale_executions is_stale_execution
row_cancelled = refl

row_there : find_row "op-1" (row ∷ []) ≡ some row
unfolding find_row new_operation
row_there = refl

converge_stopped_run_ends_example :
    (is_prepared (cancel_prepared 7 row).execution_status ≡ false)
    × (is_executing (cancel_prepared 7 row).execution_status ≡ false)
    × (is_refused (mark_executing settings clock "worker" (cancel_prepared 7 row)) ≡ true)
    × (is_refused (record_execution clock reported_success none none (cancel_prepared 7 row))
        ≡ true)
unfolding new_operation
converge_stopped_run_ends_example =
    converge_stopped_run_ends settings reader digest "run-1" 7 (recovering_executions 5 ∷ []) "op-1"
      (row ∷ []) row (cancel_prepared 7 row) clock "worker" reported_success none none row_there
      refl row_cancelled
