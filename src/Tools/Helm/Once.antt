-- ===== src/Tools/Helm/Once.antt =====
-- mcp/tools/helm.py and mcp/utils/commands.py: a Helm command that changes something runs once.
use cloudops_agent.Prelude.{ℕ, String, Bool, false, Option, none, ◌≡◌, refl, [], ◌∷◌, one_of}
use cloudops_agent.Text.{split, push_head}
use cloudops_agent.Json.{ℤ}
use cloudops_agent.Commands.Errors.{is_retry_safe, helm_read_only}
use cloudops_agent.Commands.Run.{CommandSettings, Outcome}
use cloudops_agent.Commands.Run.Attempts.{run_command-once}
use cloudops_agent.Tools.Helm.{
  command_parts, run_helm_command, install_flags, helm_repo_add, helm_repo_remove, helm_repo_update,
  helm_install, helm_install_with_values, helm_upgrade, helm_uninstall, helm_rollback,
}
use cloudops_agent.Tools.Helm.Starts.{
  Starts, Starts-append, Starts-with_value, Starts-with_switch, Starts-with_operation,
}

-- The command lines of the tools whose annotations say that they are not read-only.
pub data Changes : String → Type 0 where
  adding : (name url : String) → Changes (helm_repo_add name url)
  updating : Changes helm_repo_update
  removing : (name : String) → Changes (helm_repo_remove name)
  installing :
      (release_name chart : String) (namespace : Option String)
      (create_namespace wait : Option Bool) (operation_id : Option String)
      → Changes (helm_install release_name chart namespace create_namespace wait operation_id)
  installing_values :
      (values_file release_name chart : String) (namespace : Option String)
      (create_namespace wait : Option Bool) (operation_id : Option String)
      → Changes (
          helm_install_with_values values_file release_name chart namespace create_namespace wait
            operation_id)
  upgrading :
      (release_name chart : String) (namespace : Option String) (install wait : Option Bool)
      (operation_id : Option String)
      → Changes (helm_upgrade release_name chart namespace install wait operation_id)
  uninstalling :
      (release_name : String) (namespace : Option String) (keep_history : Option Bool)
      → Changes (helm_uninstall release_name namespace keep_history)
  rolling_back :
      (release_name : String) (revision : ℤ) (namespace : Option String) (wait : Option Bool)
      (operation_id : Option String)
      → Changes (helm_rollback release_name revision namespace wait operation_id)

module _ (verb : String) where
  Starts-install_flags :
      (cmd : String) (namespace : Option String) (create_namespace wait : Option Bool)
      (operation_id : Option String)
      → Starts verb cmd
      → Starts verb (install_flags cmd namespace create_namespace wait operation_id)
  Starts-install_flags cmd n cn w id h = Starts-with_operation verb _ id (
      Starts-with_switch verb _ "--wait" w
        (Starts-with_switch verb _ "--create-namespace" cn (Starts-with_value verb cmd "-n" n h)))

Starts-verb :
    (Starts "repo" "repo add")
    × (Starts "repo" "repo update")
    × (Starts "repo" "repo remove")
    × (Starts "install" "install")
    × (Starts "upgrade" "upgrade")
    × (Starts "uninstall" "uninstall")
    × (Starts "rollback" "rollback")
unfolding command_parts split push_head
Starts-verb = (
  ("add" ∷ [], refl),
  ("update" ∷ [], refl),
  ("remove" ∷ [], refl),
  ([], refl),
  ([], refl),
  ([], refl),
  ([], refl),
)

-- Each line starts with a verb that is not among those that may be repeated.
abbrev Unsafe : String → Type 0
Unsafe cmd = (verb : String) × (one_of helm_read_only verb ≡ false) × Starts verb cmd

Changes-Unsafe : (cmd : String) → Changes cmd → Unsafe cmd
unfolding helm_install helm_install_with_values helm_upgrade helm_uninstall helm_rollback one_of
Changes-Unsafe _ (adding name url) = ("repo", refl, Starts-append "repo" "repo add" _ Starts-verb.0)
Changes-Unsafe _ updating = ("repo", refl, Starts-verb.1)
Changes-Unsafe _ (removing name) =
    ("repo", refl, Starts-append "repo" "repo remove" name Starts-verb.2)
Changes-Unsafe _ (installing r c n cn w id) = (
  "install",
  refl,
  Starts-install_flags "install" _ n cn w id (Starts-append "install" "install" _ Starts-verb.3),
)
Changes-Unsafe _ (installing_values f r c n cn w id) = (
  "install",
  refl,
  Starts-install_flags "install" _ n cn w id (Starts-append "install" "install" _ Starts-verb.3),
)
Changes-Unsafe _ (upgrading r c n i w id) = (
  "upgrade",
  refl,
  Starts-with_operation "upgrade" _ id (
      Starts-with_switch "upgrade" _ "--wait" w (
        Starts-with_switch "upgrade" _ "--install" i (
          Starts-with_value "upgrade" _ "-n" n
            (Starts-append "upgrade" "upgrade" _ Starts-verb.4)))),
)
Changes-Unsafe _ (uninstalling r n k) = (
  "uninstall",
  refl,
  Starts-with_switch "uninstall" _ "--keep-history" k (
      Starts-with_value "uninstall" _ "-n" n
        (Starts-append "uninstall" "uninstall" r Starts-verb.5)),
)
Changes-Unsafe _ (rolling_back r v n w id) = (
  "rollback",
  refl,
  Starts-with_operation "rollback" _ id (
      Starts-with_switch "rollback" _ "--wait" w (
        Starts-with_value "rollback" _ "-n" n
          (Starts-append "rollback" "rollback" _ Starts-verb.6))),
)

Unsafe-retry : (cmd : String) → Unsafe cmd → is_retry_safe "helm" (command_parts cmd) ≡ false
unfolding is_retry_safe
Unsafe-retry cmd (verb, unsafe, (rest, e)) = rw (e, unsafe) refl

-- A Helm tool that is not annotated as read-only starts one process: whatever its arguments are, spaces
-- in them included, what it gives depends on the outcome of that process alone.
pub run_helm_command-once :
    (settings : CommandSettings) (cmd : String)
    (outcome outcome' fallback_outcome fallback_outcome' : ℕ → Outcome)
    → Changes cmd
    → outcome 1 ≡ outcome' 1
    → run_helm_command settings cmd outcome fallback_outcome
      ≡ run_helm_command settings cmd outcome' fallback_outcome'
unfolding run_helm_command
run_helm_command-once settings cmd outcome outcome' f f' changes same =
    run_command-once settings "helm" (command_parts cmd) none none none outcome outcome' f f'
      (Unsafe-retry cmd (Changes-Unsafe cmd changes)) same
