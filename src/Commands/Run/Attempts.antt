-- ===== src/Commands/Run/Attempts.antt =====
-- mcp/utils/commands.py: how often `run_command` starts a process.
use cloudops_agent.Prelude.{
  ℕ, zero, suc, ◌+◌, ◌-◌, ◌≤◌, ◌<◌, String, Bool, true, false, ◌&&◌, Option, none, List, ◌≡◌, refl,
  sym, ap, ◌∙◌, arith, ◌⊎◌, inl, inr, leb, leb→le, Bool-cases,
}
use cloudops_agent.Commands.Run.{
  CommandSettings, Outcome, Attempt, returns, fails, raises, attempt_of, End, attempts_from,
  continue, last, finish, run_command, retry_safe_for, max_attempts_for, timeout_for, or_fallback,
}

-- The attempt failed in a way that may pass.
abbrev pub retries : Attempt → Bool
retries (returns output) = false
retries raises = false
retries (fails failure) = failure.retryable

module _ (retry_safe : Bool) (timeout max_attempts : ℕ) (outcome : ℕ → Outcome) where
  abbrev pub nth : ℕ → Attempt
  nth attempt = attempt_of retry_safe timeout attempt (outcome attempt)

  -- The loop that starts at an attempt ends at the attempt `k`: each one before may be repeated, and
  -- `k` is the last that is allowed or may not be repeated.
  pub record EndsAt (first k : ℕ) (end : End) : Type 0 where
    pub from : first ≤ k
    pub bounded : k ≤ max_attempts
    pub before : (j : ℕ) → first ≤ j → j < k → (retry_safe ≡ true) × (retries (nth j) ≡ true)
    pub decided : end ≡ last k (nth k)
    pub settled : (k ≡ max_attempts) ⊎ ((retry_safe && retries (nth k)) ≡ false)

  continue-last :
      (rest : End) (attempt : ℕ) (a : Attempt)
      → (retry_safe && retries a) ≡ false
      → continue retry_safe timeout max_attempts outcome rest attempt a ≡ last attempt a
  continue-last rest attempt (returns output) h = refl
  continue-last rest attempt raises h = refl
  continue-last rest attempt (fails failure) h = ground arith

  continue-rest :
      (rest : End) (attempt : ℕ) (a : Attempt)
      → (retry_safe && retries a) ≡ true
      → attempt < max_attempts
      → continue retry_safe timeout max_attempts outcome rest attempt a ≡ rest
  continue-rest rest attempt (returns output) h lt = ground arith
  continue-rest rest attempt raises h lt = ground arith
  continue-rest rest attempt (fails failure) h lt = ground arith

  again_before :
      (first j : ℕ)
      → (retry_safe && retries (nth first)) ≡ true
      → first ≡ j
      → (retry_safe ≡ true) × (retries (nth j) ≡ true)
  again_before first j again e =
      let here = ap (λ i. retry_safe && retries (nth i)) (sym e) ∙ again in ground arith

  once_more :
      (k first : ℕ) (end : End)
      → (retry_safe && retries (nth first)) ≡ true
      → first < max_attempts
      → EndsAt (first + 1) k end
      → EndsAt first k (continue retry_safe timeout max_attempts outcome end first (nth first))
  once_more k first end again lt rest = record {
    from = omega (arith, rest.from);
    bounded = rest.bounded;
    before = λ j a b. elim (Bool-cases (leb (first + 1) j)) [
      | inl later ↦ rest.before j (leb→le (first + 1) j later) b
      | inr here ↦ again_before first j again (ground (arith, a, here))
    ];
    decided = continue-rest end first (nth first) again lt ∙ rest.decided;
    settled = rest.settled;
  }

  at_end :
      (first : ℕ) (end : End)
      → first ≤ max_attempts
      → end ≡ last first (nth first)
      → (first ≡ max_attempts) ⊎ ((retry_safe && retries (nth first)) ≡ false)
      → EndsAt first first end
  at_end first end bounded decided settled = record {
    from = omega arith;
    bounded = bounded;
    before = λ j a b. ground arith;
    decided = decided;
    settled = settled;
  }

  pub attempts_from-EndsAt :
      (more first : ℕ)
      → first + more ≡ max_attempts
      → (k : ℕ) × EndsAt first k (attempts_from retry_safe timeout max_attempts outcome more first)
  unfolding attempts_from
  attempts_from-EndsAt zero first e = (first, at_end first _ (omega arith) refl (inl (omega arith)))
  attempts_from-EndsAt (suc more) first e = elim (Bool-cases (retry_safe && retries (nth first))) [
    | inl again ↦
        let (k, rest) = attempts_from-EndsAt more (first + 1) (omega arith) in
        (k, once_more k first _ again (omega arith) rest)
    | inr over ↦
        (first, at_end first _ (omega arith) (continue-last _ first (nth first) over) (inr over))
  ]

module _ (settings : CommandSettings) (cmd : String) (args : List String)
    (timeout_seconds : Option ℕ) (retry : Option Bool) where
  abbrev pub Ends : (ℕ → Outcome) → ℕ → End → Type 0
  Ends outcome k end =
      let retry_safe = retry_safe_for settings cmd args retry in
      EndsAt retry_safe (timeout_for settings timeout_seconds retry_safe)
        (max_attempts_for settings retry_safe) outcome 1 k end

  first_and_rest :
      1 ≤ settings.command_max_retry_attempts
      → (retry_safe : Bool)
      → 1 + (max_attempts_for settings retry_safe - 1) ≡ max_attempts_for settings retry_safe
  first_and_rest valid true = omega (arith, valid)
  first_and_rest valid false = omega arith

  without_fallback :
      (retry_safe : Bool) (timeout : ℕ) (unused : ℕ → Outcome) (end : End)
      → or_fallback settings retry_safe timeout none unused cmd args end
        ≡ finish settings cmd args end
  without_fallback true timeout unused end = refl
  without_fallback false timeout unused end = refl

  -- Where the settings allow an attempt, a command always comes to an answer, at some attempt `k` between 1 and the number of attempts that
  -- the settings allow (1 unless the command is safe to repeat): each attempt before `k` failed in a way
  -- that may pass, `k` is the last one allowed or may not be repeated, and what the call without a
  -- fallback returns or raises is what attempt `k` gave.
  pub run_command-Ends :
      1 ≤ settings.command_max_retry_attempts
      → (outcome unused : ℕ → Outcome)
      → (k : ℕ) × (end : End) × Ends outcome k end
        × (run_command settings cmd args timeout_seconds retry none outcome unused
            ≡ finish settings cmd args end)
  unfolding run_command
  run_command-Ends valid outcome unused =
      let retry_safe = retry_safe_for settings cmd args retry in
      let timeout = timeout_for settings timeout_seconds retry_safe in
      let max_attempts = max_attempts_for settings retry_safe in
      let (k, ends) =
        attempts_from-EndsAt retry_safe timeout max_attempts outcome (max_attempts - 1) 1
          (first_and_rest valid retry_safe) in
      (k, _, ends, without_fallback retry_safe timeout unused _)

-- A command that is not safe to repeat is started once: what the call gives depends on the outcome of
-- that one process alone, and on no fallback, whatever command the caller gives as one.
pub run_command-once :
    (settings : CommandSettings) (cmd : String) (args : List String) (timeout_seconds : Option ℕ)
    (retry : Option Bool) (fallback : Option (String × List String))
    (outcome outcome' fallback_outcome fallback_outcome' : ℕ → Outcome)
    → retry_safe_for settings cmd args retry ≡ false
    → outcome 1 ≡ outcome' 1
    → run_command settings cmd args timeout_seconds retry fallback outcome fallback_outcome
      ≡ run_command settings cmd args timeout_seconds retry none outcome' fallback_outcome'
unfolding run_command attempts_from
run_command-once settings cmd args timeout_seconds retry fallback outcome outcome' f f' unsafe
      same =
    rw (unsafe, same) refl
