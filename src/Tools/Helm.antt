-- ===== src/Tools/Helm.antt =====
-- mcp/tools/helm.py: the command line of each tool. The defaults of the parameters are the caller's,
-- and the name of the temporary file with the values is a parameter.
pub mod Parts
pub mod Starts
pub mod Marker
pub mod Once
use Prim.Native.String.{◌++◌}
use cloudops_agent.Prelude.{
  ℕ, String, Bool, true, false, not, ◌&&◌, Option, none, some, List, filter, if◌then◌else◌,
}
use cloudops_agent.Text.{split, is_empty}
use cloudops_agent.Json.{ℤ, num}
use cloudops_agent.Json.Access.{truthy}
use cloudops_agent.Json.Print.{text}
use cloudops_agent.Commands.Run.{CommandSettings, Outcome, ToolOutput, run_command}

-- [part for part in command.split(" ") if part]
unfoldable pub command_parts : String → List String
command_parts command = filter (λ part. not (is_empty part)) (split b' ' command)

-- `none` where the task was cancelled
unfoldable pub run_helm_command :
    CommandSettings → String → (ℕ → Outcome) → (ℕ → Outcome) → Option ToolOutput
run_helm_command settings command outcome fallback_outcome =
    run_command settings "helm" (command_parts command) none none none outcome fallback_outcome

-- if value: cmd += f" {flag} {value}"
unfoldable pub with_value : String → String → Option String → String
with_value cmd flag none = cmd
with_value cmd flag (some value) =
    if is_empty value then cmd else cmd ++ " " ++ flag ++ " " ++ value

-- if on: cmd += f" {flag}"
unfoldable pub with_switch : String → String → Option Bool → String
with_switch cmd flag none = cmd
with_switch cmd flag (some false) = cmd
with_switch cmd flag (some true) = cmd ++ " " ++ flag

-- if n: cmd += f" {flag} {n}"
unfoldable pub with_number : String → String → Option ℤ → String
with_number cmd flag none = cmd
with_number cmd flag (some n) =
    if truthy (num n) then cmd ++ " " ++ flag ++ " " ++ text (num n) else cmd

-- cmd += f" --description skyflo-operation:{skyflo_operation_id}"
unfoldable pub with_operation : String → Option String → String
with_operation cmd none = cmd
with_operation cmd (some id) =
    if is_empty id then cmd else cmd ++ " " ++ "--description" ++ " " ++ "skyflo-operation:" ++ id

-- f'-n {namespace}' if namespace else ''
abbrev pub namespace_part : Option String → String
namespace_part none = ""
namespace_part (some namespace) = if is_empty namespace then "" else "-n" ++ " " ++ namespace

abbrev pub all_part : Option Bool → String
all_part (some true) = "-A"
all_part _ = ""

-- `none` is the ValueError of both.
unfoldable pub helm_list_releases : Option String → Option Bool → Option String
helm_list_releases namespace all_namespaces =
    if not (is_empty (namespace_part namespace)) && not (is_empty (all_part all_namespaces))
    then none
    else some ("list" ++ " " ++ namespace_part namespace ++ " " ++ all_part all_namespaces)

abbrev pub helm_repo_add : String → String → String
helm_repo_add name url = "repo add" ++ " " ++ name ++ " " ++ url

abbrev pub helm_repo_update : String
helm_repo_update = "repo update"

abbrev pub helm_repo_remove : String → String
helm_repo_remove name = "repo remove" ++ " " ++ name

abbrev pub install_flags :
    String → Option String → Option Bool → Option Bool → Option String → String
install_flags cmd namespace create_namespace wait operation_id =
    with_operation
      (with_switch
        (with_switch (with_value cmd "-n" namespace) "--create-namespace" create_namespace) "--wait"
        wait)
      operation_id

unfoldable pub helm_install :
    String → String → Option String → Option Bool → Option Bool → Option String → String
helm_install release_name chart = install_flags ("install" ++ " " ++ release_name ++ " " ++ chart)

unfoldable pub helm_install_with_values :
    String → String → String → Option String → Option Bool → Option Bool → Option String → String
helm_install_with_values values_file release_name chart =
    install_flags ("install" ++ " " ++ release_name ++ " " ++ chart ++ " -f " ++ values_file)

unfoldable pub helm_upgrade :
    String → String → Option String → Option Bool → Option Bool → Option String → String
helm_upgrade release_name chart namespace install wait operation_id =
    with_operation
      (with_switch
        (with_switch (with_value ("upgrade" ++ " " ++ release_name ++ " " ++ chart) "-n" namespace)
          "--install" install)
        "--wait" wait)
      operation_id

unfoldable pub helm_uninstall : String → Option String → Option Bool → String
helm_uninstall release_name namespace keep_history =
    with_switch (with_value ("uninstall" ++ " " ++ release_name) "-n" namespace) "--keep-history"
      keep_history

unfoldable pub helm_rollback : String → ℤ → Option String → Option Bool → Option String → String
helm_rollback release_name revision namespace wait operation_id =
    with_operation
      (with_switch
        (with_value ("rollback" ++ " " ++ release_name ++ " " ++ text (num revision)) "-n"
          namespace)
        "--wait" wait)
      operation_id

unfoldable pub helm_status : String → Option String → Option String → String
helm_status release_name namespace output =
    with_value (with_value ("status" ++ " " ++ release_name) "-n" namespace) "-o" output

abbrev pub helm_history : String → Option String → Option ℤ → String
helm_history release_name namespace max_revisions =
    with_number (with_value ("history" ++ " " ++ release_name) "-n" namespace) "--max" max_revisions

abbrev pub helm_get_values : String → Option String → Option String → String
helm_get_values release_name namespace output =
    with_value (with_value ("get values" ++ " " ++ release_name) "-n" namespace) "-o" output

unfoldable pub helm_get_manifest : String → Option String → String
helm_get_manifest release_name namespace =
    with_value ("get manifest" ++ " " ++ release_name) "-n" namespace

abbrev pub helm_show_values : String → String
helm_show_values chart = "show values" ++ " " ++ chart

abbrev pub helm_search_repo : String → Option String → Option ℤ → String
helm_search_repo keyword version max_col_width =
    with_number (with_value ("search repo" ++ " " ++ keyword) "--version" version) "--max-col-width"
      max_col_width

-- The values are given where the file has been written.
abbrev pub helm_template : String → String → Option String → Option Bool → Option String → String
helm_template release_name chart namespace include_crds values_file =
    with_value
      (with_switch (with_value ("template" ++ " " ++ release_name ++ " " ++ chart) "-n" namespace)
        "--include-crds" include_crds)
      "-f" values_file
