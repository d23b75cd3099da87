-- ===== src/Commands/Run/Outcomes.antt =====
-- mcp/utils/commands.py: what one attempt of `run_command` gives.
use Prim.Native.String.{◌++◌}
use cloudops_agent.Prelude.{
  ℕ, String, Bool, true, false, not, Option, none, some, nat_eq, if◌then◌else◌,
}
use cloudops_agent.Text.{is_empty, strip, decimal}
use cloudops_agent.Json.{ℤ, pos, negsuc, num}
use cloudops_agent.Json.Print.{text}
use cloudops_agent.Commands.Errors.{classify_error}

pub record ToolOutput : Type 0 where
  pub output : String
  pub error : Bool
  pub attempts : ℕ
  pub retryable : Bool
  pub fallback_used : Bool
  pub ambiguous_outcome : Bool
  pub external_execution_started : Bool
  pub error_type : Option String

pub record CommandSettings : Type 0 where
  pub command_read_timeout_seconds : ℕ
  pub command_mutation_timeout_seconds : ℕ
  pub command_max_retry_attempts : ℕ

-- What becomes of one attempt: the run was stopped before the process could register, the process was
-- cut off, it exited, the executable is missing, another exception was raised, or the task was
-- cancelled. Texts are decoded.
pub data Outcome : Type 0 where
  refused : Outcome
  timed_out : Outcome
  exited : ℤ → String → String → Outcome
  missing_executable : String → Outcome
  broken : String → Outcome
  task_cancelled : Outcome

-- last_error_type, last_retryable, last_message
pub record Failure : Type 0 where
  pub error_type : String
  pub retryable : Bool
  pub message : String

pub data Attempt : Type 0 where
  returns : ToolOutput → Attempt
  fails : Failure → Attempt
  raises : Attempt

-- a or b
abbrev pub or_text : String → String → String
or_text a b = if is_empty a then b else a

abbrev pub is_zero : ℤ → Bool
is_zero (pos n) = nat_eq n 0
is_zero (negsuc n) = false

abbrev pub classified : String × Bool → String → Failure
classified (error_type, retryable) message = record {
  error_type = error_type;
  retryable = retryable;
  message = message;
}

abbrev pub success : String → ℕ → ToolOutput
success output attempt = record {
  output = output;
  error = false;
  attempts = attempt;
  retryable = false;
  fallback_used = false;
  ambiguous_outcome = false;
  external_execution_started = false;
  error_type = none;
}

abbrev pub stopped : Bool → ℕ → ToolOutput
stopped retry_safe attempt = record {
  output = "Command was cancelled because its workflow run had already received a Stop request.";
  error = true;
  attempts = attempt;
  retryable = false;
  fallback_used = false;
  ambiguous_outcome = not retry_safe;
  external_execution_started = true;
  error_type = some "cancelled";
}

-- One pass of the loop's `try`.
unfoldable pub attempt_of : Bool → ℕ → ℕ → Outcome → Attempt
attempt_of retry_safe timeout attempt refused = returns (stopped retry_safe attempt)
attempt_of retry_safe timeout attempt timed_out =
    fails (
      classified (classify_error "" true)
        ("Command exceeded timeout of " ++ decimal timeout ++ "s"))
attempt_of retry_safe timeout attempt (exited code stdout stderr) =
    let stdout_text = strip stdout in
    let stderr_text = strip stderr in
    let message = or_text stderr_text (or_text stdout_text ("exit code " ++ text (num code))) in
    if is_zero code
    then returns (
        success
          (or_text stdout_text (
            or_text stderr_text
              "The command was executed successfully, but no output was returned."))
          attempt)
    else fails (classified (classify_error message false) message)
attempt_of retry_safe timeout attempt (missing_executable message) =
    fails (record { error_type = "executable_not_found"; retryable = false; message = message })
attempt_of retry_safe timeout attempt (broken message) =
    fails (classified (classify_error message false) message)
attempt_of retry_safe timeout attempt task_cancelled = raises
