-- ===== src/Tools/Argo.antt =====
-- mcp/tools/argo.py: the command lines of Argo Rollouts, which are built and taken apart as those of
-- Helm are. `argo_describe` and the lists, which call `kubectl` directly, are left out.
pub mod Once
use Prim.Native.String.{◌++◌}
use cloudops_agent.Prelude.{
  ℕ, String, Bool, true, false, Option, none, some, List, [], ◌∷◌, ◌++◌ as append, ◌>>=◌,
  if◌then◌else◌,
}
use cloudops_agent.Text.{is_empty, contains}
use cloudops_agent.Json.{ℤ}
use cloudops_agent.Commands.Run.{CommandSettings, Outcome, ToolOutput, run_command}
use cloudops_agent.Tools.Helm.{command_parts, with_value, with_switch, with_number}

-- `none` where the task was cancelled
unfoldable pub run_argo_command :
    CommandSettings
    → String
    → Option (String × List String)
    → (ℕ → Outcome)
    → (ℕ → Outcome)
    → Option ToolOutput
run_argo_command settings command fallback outcome fallback_outcome =
    run_command settings "kubectl" ("argo" ∷ "rollouts" ∷ command_parts command) none none fallback
      outcome fallback_outcome

unfoldable pub argo_promote : String → Option String → Option Bool → String
argo_promote name namespace full =
    with_switch (with_value ("promote" ++ " " ++ name) "-n" namespace) "--full" full

unfoldable pub argo_pause_rollout : String → Option String → String
argo_pause_rollout name namespace = with_value ("pause" ++ " " ++ name) "-n" namespace

unfoldable pub argo_resume_rollout : String → Option String → String
argo_resume_rollout name namespace = with_value ("resume" ++ " " ++ name) "-n" namespace

unfoldable pub argo_abort_rollout : String → Option String → String
argo_abort_rollout name namespace = with_value ("abort" ++ " " ++ name) "-n" namespace

abbrev pub named_image : String → Option String
named_image image = if contains image "=" then some image else none

-- `none` is the ValueError of an image without a container.
abbrev pub container_image : String → Option String → Option String
container_image image none = named_image image
container_image image (some container) =
    if is_empty container then named_image image else some (container ++ "=" ++ image)

unfoldable pub argo_set_image : String → String → Option String → Option String → Option String
argo_set_image name image namespace container_name = do
  target ← container_image image container_name
  some (with_value ("set image" ++ " " ++ name ++ " " ++ target) "-n" namespace)

unfoldable pub argo_rollout_restart : String → Option String → String
argo_rollout_restart name namespace = with_value ("restart" ++ " " ++ name) "-n" namespace

abbrev pub argo_status : String → Option String → Option Bool → String
argo_status name namespace watch =
    with_switch (with_value ("status" ++ " " ++ name) "-n" namespace) "--watch" watch

-- if namespace: fallback_args.extend(["-n", namespace])
abbrev pub namespace_args : Option String → List String
namespace_args none = []
namespace_args (some namespace) = if is_empty namespace then [] else "-n" ∷ namespace ∷ []

-- The fallback of `argo_status`: none where it watches.
abbrev pub argo_status_fallback :
    String → Option String → Option Bool → Option (String × List String)
argo_status_fallback name namespace (some true) = none
argo_status_fallback name namespace _ = some (
  "kubectl",
  append ("get" ∷ "rollouts.argoproj.io" ∷ name ∷ "-o" ∷ "yaml" ∷ []) (namespace_args namespace),
)

abbrev pub argo_history : String → Option String → Option ℤ → String
argo_history name namespace revision =
    with_number (with_value ("history" ++ " " ++ name) "-n" namespace) "--revision" revision

unfoldable pub argo_undo : String → Option String → Option ℤ → String
argo_undo name namespace to_revision =
    with_number (with_value ("undo" ++ " " ++ name) "-n" namespace) "--to-revision" to_revision
