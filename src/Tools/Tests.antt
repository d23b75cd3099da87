-- ===== src/Tools/Tests.antt =====
-- The Helm tools at concrete arguments.
use cloudops_agent.Prelude.{nat_eq, if◌then◌else◌, ℕ, String, true, none, some, ◌≡◌, refl, [], ◌∷◌}
use cloudops_agent.Text.{split, push_head, contains, decimal}
use cloudops_agent.Json.{pos}
use cloudops_agent.Json.Print.{text}
use cloudops_agent.Verifier.Helm.{release_marker}
use cloudops_agent.Commands.Run.{CommandSettings, Outcome, exited, broken}
use cloudops_agent.Tools.Helm.{
  command_parts, run_helm_command, helm_install, helm_rollback, with_value, with_switch,
  with_operation,
}
use cloudops_agent.Tools.Helm.Parts.{IsWord, has_space}
use cloudops_agent.Tools.Helm.Marker.{rolling_back, EndsWith, Carries-marker}
use cloudops_agent.Tools.Helm.Once.{installing, run_helm_command-once}
use cloudops_agent.Tools.Argo.{run_argo_command, argo_promote}
use cloudops_agent.Tools.Argo.Once.{promoting, run_argo_command-once}

abbrev rollback_command : String
rollback_command = helm_rollback "web" (pos 3) (some "shop") (some true) (some "op-1")

rollback_parts :
    command_parts rollback_command
    ≡ "rollback" ∷ "web" ∷ "3" ∷ "-n" ∷ "shop" ∷ "--wait" ∷ "--description"
      ∷ "skyflo-operation:op-1" ∷ []
unfolding command_parts split push_head helm_rollback with_value with_switch with_operation text
    decimal
rollback_parts = refl

-- A release name with spaces adds arguments, a namespace among them.
injected_namespace :
    command_parts (helm_rollback "web -n kube-system" (pos 3) none none none)
    ≡ "rollback" ∷ "web" ∷ "-n" ∷ "kube-system" ∷ "3" ∷ []
unfolding command_parts split push_head helm_rollback with_value with_switch with_operation text
    decimal
injected_namespace = refl

op_IsWord : IsWord "op-1"
unfolding has_space
op_IsWord = (refl, refl)

Carries-marker_example :
    (marker : String) × EndsWith "--description" marker rollback_command
    × (contains marker (release_marker "op-1") ≡ true)
Carries-marker_example =
    Carries-marker "op-1" rollback_command op_IsWord
      (rolling_back "web" (pos 3) (some "shop") (some true))

abbrev settings : CommandSettings
settings = record {
  command_read_timeout_seconds = 30;
  command_mutation_timeout_seconds = 120;
  command_max_retry_attempts = 3;
}

-- The connection breaks at the first attempt, and a second one would answer.
abbrev flaky : ℕ → Outcome
flaky n = if nat_eq n 1 then broken "connection refused" else exited (pos 0) "done" ""

abbrev install_command : String
install_command = helm_install "web" "shop/web" (some "shop") (some true) (some true) (some "op-1")

run_helm_command-once_example :
    run_helm_command settings install_command flaky flaky
    ≡ run_helm_command settings install_command (λ n. broken "connection refused") flaky
run_helm_command-once_example =
    run_helm_command-once settings install_command flaky (λ n. broken "connection refused") flaky
      flaky (installing "web" "shop/web" (some "shop") (some true) (some true) (some "op-1")) refl

abbrev promote_command : String
promote_command = argo_promote "web" (some "shop") (some true)

run_argo_command-once_example :
    run_argo_command settings promote_command
      (some ("kubectl", "get" ∷ "rollouts" ∷ []))
      flaky
      flaky
    ≡ run_argo_command settings promote_command none (λ n. broken "connection refused") flaky
run_argo_command-once_example =
    run_argo_command-once settings promote_command (some ("kubectl", "get" ∷ "rollouts" ∷ [])) flaky
      (λ n. broken "connection refused") flaky flaky (promoting "web" (some "shop") (some true))
      refl
