-- ===== src/Tools/Argo/Once.antt =====
-- mcp/tools/argo.py and mcp/utils/commands.py: an Argo command that changes a rollout runs once.
use cloudops_agent.Prelude.{
  ℕ, String, Bool, false, Option, none, some, ◌≡◌, refl, subst, List, [], ◌∷◌, one_of, >>=-eq-some,
  some_inj,
}
use cloudops_agent.Text.{split, push_head}
use cloudops_agent.Json.{ℤ}
use cloudops_agent.Commands.Errors.{is_retry_safe, argo_read_only}
use cloudops_agent.Commands.Run.{CommandSettings, Outcome}
use cloudops_agent.Commands.Run.Attempts.{run_command-once}
use cloudops_agent.Tools.Helm.{command_parts}
use cloudops_agent.Tools.Helm.Starts.{
  Starts, Starts-append, Starts-with_value, Starts-with_switch, Starts-with_number,
}
use cloudops_agent.Tools.Argo.{
  run_argo_command, argo_promote, argo_pause_rollout, argo_resume_rollout, argo_abort_rollout,
  container_image, argo_set_image, argo_rollout_restart, argo_undo,
}

-- The command lines of the tools whose annotations say that they are not read-only.
pub data Changes : String → Type 0 where
  promoting :
      (name : String) (namespace : Option String) (full : Option Bool)
      → Changes (argo_promote name namespace full)
  pausing :
      (name : String) (namespace : Option String) → Changes (argo_pause_rollout name namespace)
  resuming :
      (name : String) (namespace : Option String) → Changes (argo_resume_rollout name namespace)
  aborting :
      (name : String) (namespace : Option String) → Changes (argo_abort_rollout name namespace)
  restarting :
      (name : String) (namespace : Option String) → Changes (argo_rollout_restart name namespace)
  undoing :
      (name : String) (namespace : Option String) (to_revision : Option ℤ)
      → Changes (argo_undo name namespace to_revision)
  setting_image :
      (cmd name image : String) (namespace container_name : Option String)
      → argo_set_image name image namespace container_name ≡ some cmd
      → Changes cmd

Starts-verb :
    (Starts "promote" "promote")
    × (Starts "pause" "pause")
    × (Starts "resume" "resume")
    × (Starts "abort" "abort")
    × (Starts "restart" "restart")
    × (Starts "undo" "undo")
    × (Starts "set" "set image")
unfolding command_parts split push_head
Starts-verb =
    (([], refl), ([], refl), ([], refl), ([], refl), ([], refl), ([], refl), ("image" ∷ [], refl))

-- Each line starts with a verb that is not among those that may be repeated.
abbrev Unsafe : String → Type 0
Unsafe cmd = (verb : String) × (one_of argo_read_only verb ≡ false) × Starts verb cmd

set_image-Unsafe :
    (cmd name image : String) (namespace container_name : Option String)
    → argo_set_image name image namespace container_name ≡ some cmd
    → Unsafe cmd
unfolding argo_set_image one_of
set_image-Unsafe cmd name image namespace container_name h =
    let (target, e, h1) = >>=-eq-some (container_image image container_name) _ h in
    (
      "set",
      refl,
      subst (Starts "set") (some_inj h1) (
          Starts-with_value "set" _ "-n" namespace
            (Starts-append "set" "set image" _ Starts-verb.6)),
    )

Changes-Unsafe : (cmd : String) → Changes cmd → Unsafe cmd
unfolding argo_promote argo_pause_rollout argo_resume_rollout argo_abort_rollout
    argo_rollout_restart argo_undo one_of
Changes-Unsafe _ (promoting name n full) = (
  "promote",
  refl,
  Starts-with_switch "promote" _ "--full" full
      (Starts-with_value "promote" _ "-n" n (Starts-append "promote" "promote" name Starts-verb.0)),
)
Changes-Unsafe _ (pausing name n) = (
  "pause",
  refl,
  Starts-with_value "pause" _ "-n" n (Starts-append "pause" "pause" name Starts-verb.1),
)
Changes-Unsafe _ (resuming name n) = (
  "resume",
  refl,
  Starts-with_value "resume" _ "-n" n (Starts-append "resume" "resume" name Starts-verb.2),
)
Changes-Unsafe _ (aborting name n) = (
  "abort",
  refl,
  Starts-with_value "abort" _ "-n" n (Starts-append "abort" "abort" name Starts-verb.3),
)
Changes-Unsafe _ (restarting name n) = (
  "restart",
  refl,
  Starts-with_value "restart" _ "-n" n (Starts-append "restart" "restart" name Starts-verb.4),
)
Changes-Unsafe _ (undoing name n v) = (
  "undo",
  refl,
  Starts-with_number "undo" _ "--to-revision" v
      (Starts-with_value "undo" _ "-n" n (Starts-append "undo" "undo" name Starts-verb.5)),
)
Changes-Unsafe _ (setting_image cmd name image n c h) = set_image-Unsafe cmd name image n c h

Unsafe-retry :
    (cmd : String)
    → Unsafe cmd
    → is_retry_safe "kubectl" ("argo" ∷ "rollouts" ∷ command_parts cmd) ≡ false
unfolding is_retry_safe
Unsafe-retry cmd (verb, unsafe, (rest, e)) = rw (e, unsafe) refl

-- An Argo tool that is not annotated as read-only starts one process, and no fallback: whatever its
-- arguments are, spaces in them included, what it gives depends on the outcome of that process alone,
-- even where a caller gives a fallback.
pub run_argo_command-once :
    (settings : CommandSettings) (cmd : String) (fallback : Option (String × List String))
    (outcome outcome' fallback_outcome fallback_outcome' : ℕ → Outcome)
    → Changes cmd
    → outcome 1 ≡ outcome' 1
    → run_argo_command settings cmd fallback outcome fallback_outcome
      ≡ run_argo_command settings cmd none outcome' fallback_outcome'
unfolding run_argo_command
run_argo_command-once settings cmd fallback outcome outcome' f f' changes same =
    run_command-once settings "kubectl" ("argo" ∷ "rollouts" ∷ command_parts cmd) none none fallback
      outcome outcome' f f' (Unsafe-retry cmd (Changes-Unsafe cmd changes)) same
