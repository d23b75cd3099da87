-- ===== src/Commands/Tests.antt =====
-- Commands and stops at concrete runs.
use cloudops_agent.Prelude.{
  ℕ, ◌+◌, true, false, none, some, List, [], ◌∷◌, ◌≡◌, refl, arith, All, nat_eq, if◌then◌else◌,
}
use cloudops_agent.Json.{pos}
use cloudops_agent.Commands.Errors.{classify_error, mentions}
use cloudops_agent.Text.{lower}
use cloudops_agent.Commands.Registry.{
  Registry, unregister_process, discard, register_process, cancel_run, has_process, processes_of,
  put, at, unexpired, prune_cancelled_runs,
}
use cloudops_agent.Commands.Registry.Stops.{
  Call, registering, unregistering, calls, call, Within, cancel_run_complete,
}
use cloudops_agent.Commands.Run.{CommandSettings, Outcome, exited, broken, End, run_command, finish}
use cloudops_agent.Commands.Run.Attempts.{Ends, run_command-Ends}

abbrev settings : CommandSettings
settings = record {
  command_read_timeout_seconds = 30;
  command_mutation_timeout_seconds = 120;
  command_max_retry_attempts = 3;
}

throttled : classify_error "HTTP 429: slow down" false ≡ ("rate_limited", true)
unfolding classify_error mentions lower
throttled = refl

-- The second attempt answers.
abbrev second : ℕ → Outcome
second n = if nat_eq n 1 then broken "connection refused" else exited (pos 0) "pod/web" ""

run_command-Ends_example :
    (k : ℕ) × (end : End) × Ends settings "kubectl" ("get" ∷ "pods" ∷ []) none none second k end
    × (run_command settings "kubectl" ("get" ∷ "pods" ∷ []) none none none second second
        ≡ finish settings "kubectl" ("get" ∷ "pods" ∷ []) end)
run_command-Ends_example =
    run_command-Ends settings "kubectl" ("get" ∷ "pods" ∷ []) none none (omega arith) second second

abbrev busy : Registry
busy = record { active_processes = ("run-1", 7 ∷ []) ∷ []; cancelled_runs = [] }

abbrev later_calls : List Call
later_calls = registering (some "run-1") 8 120 ∷ unregistering (some "run-1") 9 ∷ []

later-Within : All (Within 100 (100 + 900)) later_calls
later-Within = ((omega arith, omega arith), (tt, tt))

still_active :
    has_process 7
      (processes_of "run-1" (calls 900 later_calls (cancel_run 900 "run-1" 99 100 busy).1))
    ≡ true
unfolding calls call cancel_run register_process has_process at put unexpired prune_cancelled_runs
    unregister_process discard
still_active = refl

cancel_run_complete_example : has_process 7 (cancel_run 900 "run-1" 99 100 busy).0 ≡ true
cancel_run_complete_example =
    cancel_run_complete 900 "run-1" 99 100 busy later_calls later-Within 7 still_active
