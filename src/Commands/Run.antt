-- ===== src/Commands/Run.antt =====
-- mcp/utils/commands.py: `run_command`. What the operating system makes of an attempt is the
-- argument `outcome`; the delays between attempts and the measured durations are left out, and
-- timeouts are whole seconds.
mod Outcomes
pub mod Attempts
unfoldable pub use Outcomes.*
use Prim.Native.String.{◌++◌}
use cloudops_agent.Prelude.{
  ℕ, zero, suc, ◌+◌, ◌-◌, String, Bool, true, false, not, ◌&&◌, Option, none, some, ◌>>=◌, List, [],
  ◌∷◌, map, ltb, nat_eq, ◌==◌, if◌then◌else◌,
}
use cloudops_agent.Text.{is_empty, strip, decimal}
use cloudops_agent.Json.{ℤ, pos, negsuc, str, arr, num, of_list}
use cloudops_agent.Json.Print.{text}
use cloudops_agent.Commands.Errors.{is_retry_safe, classify_error}

-- How the loop ends: it has returned, an exception has left it, or it gave up at an attempt.
pub data End : Type 0 where
  returned : ToolOutput → End
  raised : End
  gave_up : ℕ → Failure → End

-- After the last attempt the loop gives up whatever the failure.
abbrev pub last : ℕ → Attempt → End
last attempt (returns output) = returned output
last attempt raises = raised
last attempt (fails failure) = gave_up attempt failure

module _ (retry_safe : Bool) (timeout max_attempts : ℕ) (outcome : ℕ → Outcome) where
  abbrev pub continue : End → ℕ → Attempt → End
  continue rest attempt (returns output) = returned output
  continue rest attempt raises = raised
  continue rest attempt (fails failure) =
      if not (retry_safe && failure.retryable && ltb attempt max_attempts)
      then gave_up attempt failure
      else rest

  -- The loop at an attempt, with the number of attempts that `range` still has after it.
  unfoldable pub attempts_from : ℕ → ℕ → End
  attempts_from zero attempt =
      last attempt (attempt_of retry_safe timeout attempt (outcome attempt))
  attempts_from (suc more) attempt =
      continue (attempts_from more (attempt + 1)) attempt
        (attempt_of retry_safe timeout attempt (outcome attempt))

-- str(b).lower()
abbrev pub lower_bool : Bool → String
lower_bool true = "true"
lower_bool false = "false"

abbrev pub gave_up_output : String → List String → ℕ → Failure → ToolOutput
gave_up_output cmd args attempt failure = record {
  output =
      "Error executing command "
      ++ cmd
      ++ " with args "
      ++ text (arr (of_list (map str args)))
      ++ " [type="
      ++ failure.error_type
      ++ ", attempts="
      ++ decimal attempt
      ++ ", retryable="
      ++ lower_bool failure.retryable
      ++ "]: "
      ++ failure.message;
  error = true;
  attempts = attempt;
  retryable = failure.retryable;
  fallback_used = false;
  ambiguous_outcome = false;
  external_execution_started = false;
  error_type = if is_empty failure.error_type then none else some failure.error_type;
}

-- `timeout_seconds or …`
abbrev pub timeout_or : Option ℕ → ℕ → ℕ
timeout_or none fallback = fallback
timeout_or (some t) fallback = if nat_eq t 0 then fallback else t

abbrev pub retry_or : Option Bool → Bool → Bool
retry_or none inferred = inferred
retry_or (some b) inferred = b

abbrev pub with_fallback : ℕ → Failure → ToolOutput → ToolOutput → ToolOutput
with_fallback max_attempts failure result otherwise =
    if not result.error
    then record result {
      output =
          "Primary command failed (" ++ failure.error_type ++ ": " ++ failure.message
          ++ "). Safe fallback evidence follows:\n" ++ result.output;
      fallback_used = true;
      attempts = max_attempts + result.attempts;
    }
    else otherwise

module _ (settings : CommandSettings) where
  abbrev pub retry_safe_for : String → List String → Option Bool → Bool
  retry_safe_for cmd args retry = retry_or retry (is_retry_safe cmd args)

  abbrev pub max_attempts_for : Bool → ℕ
  max_attempts_for retry_safe = if retry_safe then settings.command_max_retry_attempts else 1

  abbrev pub timeout_for : Option ℕ → Bool → ℕ
  timeout_for timeout_seconds retry_safe = timeout_or timeout_seconds (
      if retry_safe
      then settings.command_read_timeout_seconds
      else settings.command_mutation_timeout_seconds)

  abbrev pub loop : Bool → ℕ → (ℕ → Outcome) → End
  loop retry_safe timeout outcome =
      attempts_from retry_safe timeout (max_attempts_for retry_safe) outcome
        (max_attempts_for retry_safe - 1) 1

  abbrev pub finish : String → List String → End → Option ToolOutput
  finish cmd args (returned output) = some output
  finish cmd args raised = none
  finish cmd args (gave_up attempt failure) = some (gave_up_output cmd args attempt failure)

  -- The call without a fallback; `none` where the task was cancelled.
  unfoldable pub run_once :
      String → List String → Option ℕ → Option Bool → (ℕ → Outcome) → Option ToolOutput
  run_once cmd args timeout_seconds retry outcome =
      let retry_safe = retry_safe_for cmd args retry in
      finish cmd args (loop retry_safe (timeout_for timeout_seconds retry_safe) outcome)

  abbrev pub or_fallback :
      Bool
      → ℕ
      → Option (String × List String)
      → (ℕ → Outcome)
      → String
      → List String
      → End
      → Option ToolOutput
  or_fallback true timeout (some (fallback_cmd, fallback_args)) fallback_outcome cmd args
        (gave_up attempt failure) =
      do
        result ← run_once fallback_cmd fallback_args (some timeout) (some false) fallback_outcome
        some (
            with_fallback settings.command_max_retry_attempts failure result
              (gave_up_output cmd args attempt failure))
  or_fallback retry_safe timeout fallback fallback_outcome cmd args end = finish cmd args end

  unfoldable pub run_command :
      String
      → List String
      → Option ℕ
      → Option Bool
      → Option (String × List String)
      → (ℕ → Outcome)
      → (ℕ → Outcome)
      → Option ToolOutput
  run_command cmd args timeout_seconds retry fallback outcome fallback_outcome =
      let retry_safe = retry_safe_for cmd args retry in
      let timeout = timeout_for timeout_seconds retry_safe in
      or_fallback retry_safe timeout fallback fallback_outcome cmd args
        (loop retry_safe timeout outcome)
