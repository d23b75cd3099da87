-- ===== src/Policy.antt =====
-- engine/src/api/services/mutation_policy.py: the authorization decision for one tool call.
pub mod Laws
mod Tests
use Prim.Native.String.{◌++◌, compare}
use Prim.Native.Nat.{Ordering}
use cloudops_agent.Prelude.{
  String, Bool, true, false, not, ◌&&◌, ◌||◌, Option, none, some, List, [], ◌∷◌, map, filter,
  one_of, any, starts_with, nat_eq, ◌==◌, if◌then◌else◌,
}
use cloudops_agent.Text.{is_empty, lower, strip, split, remove, rstrip_by, join, contains}
use cloudops_agent.Json.{Value, Fields}
use cloudops_agent.Json.Access.{get}
use cloudops_agent.Json.Print.{text}
use cloudops_agent.Settings.{Settings}
use cloudops_agent.Mutation.Manifest.{
  Yaml, Target, text_or, target_namespace, parse_manifest_targets,
}

pub record MutationPolicyDecision : Type 0 where
  pub allowed : Bool
  pub rule : String
  pub reason : String
  pub risk_level : String
  pub targets : List Target

abbrev pub forbidden_kinds : List String
forbidden_kinds =
    "namespace" ∷ "customresourcedefinition" ∷ "clusterrole" ∷ "clusterrolebinding" ∷ "role"
    ∷ "rolebinding" ∷ "validatingwebhookconfiguration" ∷ "mutatingwebhookconfiguration" ∷ []

abbrev pub cluster_mutation_tools : List String
cluster_mutation_tools = "k8s_cordon" ∷ "k8s_uncordon" ∷ "k8s_drain" ∷ []

abbrev pub or_empty : Option String → String
or_empty none = ""
or_empty (some s) = s

-- s or default
abbrev pub or_default : Option String → String → String
or_default none default = default
or_default (some s) default = if is_empty s then default else s

-- sorted(set(…)): no text twice, in the order of code points
unfoldable pub insert_text : String → List String → List String
insert_text s [] = s ∷ []
insert_text s (t ∷ rest) =
    let later = t ∷ insert_text s rest in
    elim (compare s t) [ Ordering.lt ↦ s ∷ t ∷ rest | Ordering.eq ↦ t ∷ rest | Ordering.gt ↦ later ]

unfoldable pub sorted_set : List String → List String
unfolding insert_text
sorted_set [] = []
sorted_set (s ∷ rest) = insert_text s (sorted_set rest)

abbrev pub is_nil {ℓ} : {A : Type ℓ} → List A → Bool
is_nil [] = true
is_nil (x ∷ xs) = false

-- `_allowed_namespaces`
unfoldable pub allowed_namespaces : Settings → List String
unfolding split strip
allowed_namespaces settings =
    filter (λ s. not (is_empty s)) (map strip (split b',' settings.mutation_allowed_namespaces))

abbrev pub deny : String → String → String → List Target → MutationPolicyDecision
deny rule reason risk targets = record {
  allowed = false;
  rule = rule;
  reason = reason;
  risk_level = risk;
  targets = targets;
}

-- A stage of `evaluate` returns a denial, or goes on with a value.
pub data Stage {ℓ} (A : Type ℓ) : Type ℓ where
  denied : MutationPolicyDecision → Stage A
  continue : A → Stage A

infixl 5 ◌>>=◌ ◌>>◌
abbrev pub ◌>>=◌ {ℓ κ} : {A : Type ℓ} {B : Type κ} → Stage A → (A → Stage B) → Stage B
denied d >>= f = denied d
continue a >>= f = f a

abbrev pub ◌>>◌ {ℓ} : {B : Type ℓ} → Stage (Unit {0}) → Stage B → Stage B
m >> k = m >>= λ _. k

abbrev pub deny_if : Bool → MutationPolicyDecision → Stage (Unit {0})
deny_if true d = denied d
deny_if false d = continue tt

abbrev pub is_forbidden : Target → Bool
is_forbidden t = one_of forbidden_kinds (lower t.kind)

abbrev pub resource_type_of : Fields → String
resource_type_of args = remove b'-' (lower (text_or (get "resource_type" args) ""))

abbrev pub namespaces_of : List Target → Fields → List String
namespaces_of [] args = text_or (get "namespace" args) "default" ∷ []
namespaces_of (t ∷ ts) args = map target_namespace (t ∷ ts)

abbrev pub risk_of : String → String
risk_of tool_name =
    if starts_with tool_name "helm_" || contains tool_name "delete" then "high" else "medium"

abbrev pub decision_of : Stage MutationPolicyDecision → MutationPolicyDecision
decision_of (denied d) = d
decision_of (continue d) = d

check_user : Option String → Option String → Stage (Unit {0})
check_user user_id user_role =
    let role = lower (strip (or_empty user_role)) in
    do
      deny_if (is_empty (or_empty user_id)) (
          deny "authenticated_mutation_required"
            "Mutation denied: an authenticated user is required." "high" [])
      deny_if (not (one_of ("admin" ∷ "superuser" ∷ []) role)) (
          deny "admin_mutation_required"
            ("Mutation denied: role '"
              ++ (if is_empty role then "unknown" else role)
              ++ "' is not allowed to mutate infrastructure.")
            "high" [])

module _ (settings : Settings) (yaml : Yaml) where
  abbrev pub environment_of : Option String → String
  environment_of environment = lower (strip (or_default environment settings.skyflo_environment))

  check_targets : String → Option (List Target) → Stage (List Target)
  check_targets content none = denied (
      deny "manifest_parse_failed"
        ("Mutation denied: manifest could not be parsed safely ("
          ++ yaml.error_text content
          ++ ").")
        "high" [])
  check_targets content (some targets) =
      let forbidden = sorted_set (map (λ (t : Target). t.kind) (filter is_forbidden targets)) in
      do
        deny_if (is_nil targets) (
            deny "manifest_has_no_targets"
              "Mutation denied: manifest contains no identifiable Kubernetes resources." "high" [])
        deny_if (not (is_nil forbidden)) (
            deny "cluster_or_rbac_resource_denied"
              ("Mutation denied by policy for resource kinds: " ++ join ", " forbidden) "critical"
              targets)
        continue targets

  check_manifest : String → Fields → Stage (List Target)
  check_manifest tool_name args =
      if tool_name == "k8s_apply"
      then check_targets (text_or (get "content" args) "") (
          parse_manifest_targets yaml (text_or (get "content" args) "")
            (text_or (get "namespace" args) "default"))
      else continue []

  check_namespaces : List Target → Fields → Stage (Unit {0})
  check_namespaces targets args =
      let disallowed =
        sorted_set (
          filter (λ n. not (one_of (allowed_namespaces settings) n))
            (namespaces_of targets args)) in
      deny_if (not (is_nil disallowed)) (
        deny "namespace_not_allowed"
          ("Mutation denied outside namespace allowlist: " ++ join ", " disallowed) "high" targets)

  unfoldable pub evaluate :
      String → Fields → Option String → Option String → Option String → MutationPolicyDecision
  unfolding check_user check_manifest check_namespaces check_targets
  evaluate tool_name args user_id user_role environment =
      let env = environment_of environment in
      decision_of (do
        check_user user_id user_role
        targets ← check_manifest tool_name args
        deny_if (one_of forbidden_kinds (rstrip_by (λ n. nat_eq n b's') (resource_type_of args))) (
            deny "cluster_or_rbac_resource_denied"
              ("Mutation denied by policy for resource type '" ++ resource_type_of args ++ "'.")
              "critical" [])
        deny_if (one_of cluster_mutation_tools tool_name && env == "production") (
            deny "production_cluster_mutation_denied"
              ("Mutation tool '" ++ tool_name ++ "' is disabled in production.") "critical" [])
        check_namespaces targets args
        continue (record {
          allowed = true;
          rule = "admin_allowed_namespace";
          reason =
              "Authenticated admin mutation allowed in "
              ++ env
              ++ " for namespaces: "
              ++ join ", " (sorted_set (namespaces_of targets args));
          risk_level = risk_of tool_name;
          targets = targets;
        }))
