-- ===== src/Settings.antt =====
-- engine/src/api/config/settings.py: the settings that the modelled code reads. Times are in
-- microseconds, the fractional verification interval too.
use cloudops_agent.Prelude.{ℕ, ◌*◌, ◌≤◌, String, Bool}

pub record Settings : Type 0 where
  pub internal_api_key : String
  pub skyflo_environment : String
  pub mutation_control_enabled : Bool
  pub mutation_allowed_namespaces : String
  pub mutation_lease_seconds : ℕ
  pub mutation_verification_lease_seconds : ℕ
  pub mutation_verification_timeout_seconds : ℕ
  pub mutation_verification_interval : ℕ
  pub mutation_recovery_grace_seconds : ℕ
  pub mutation_recovery_batch_size : ℕ
  pub mutation_max_verification_attempts : ℕ
  pub mutation_max_verification_age_seconds : ℕ

-- timedelta(seconds=n)
abbrev pub seconds : ℕ → ℕ
seconds n = n * 1000000

-- The bounds of the declared fields, which pydantic enforces.
pub record IsValidSettings (s : Settings) : Type 0 where
  pub lease : 5 ≤ s.mutation_lease_seconds
  pub verification_lease : 5 ≤ s.mutation_verification_lease_seconds
  pub timeout : 1 ≤ s.mutation_verification_timeout_seconds
  pub batch : 1 ≤ s.mutation_recovery_batch_size
  pub attempts : 1 ≤ s.mutation_max_verification_attempts
  pub attempts_capped : s.mutation_max_verification_attempts ≤ 100
  pub age : 60 ≤ s.mutation_max_verification_age_seconds
