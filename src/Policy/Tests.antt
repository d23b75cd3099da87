-- ===== src/Policy/Tests.antt =====
-- The mutation policy at a concrete manifest.
use cloudops_agent.Prelude.{true, none, some, [], ◌∷◌, ◌≡◌, refl, inl, one_of}
use cloudops_agent.Text.{lower, strip, split, remove}
use cloudops_agent.Json.{str, obj, Fields, done, field}
use cloudops_agent.Json.Access.{lookup}
use cloudops_agent.Json.Print.{text}
use cloudops_agent.Settings.{Settings}
use cloudops_agent.Mutation.Manifest.{
  Yaml, Target, parse_manifest_targets, documents, targets_of, target_of, add_target,
}
use cloudops_agent.Policy.{allowed_namespaces}
use cloudops_agent.Policy.Laws.{decision, IsAuthorized, evaluate_iff}

abbrev settings : Settings
settings = record {
  internal_api_key = "key";
  skyflo_environment = "production";
  mutation_control_enabled = true;
  mutation_allowed_namespaces = "default, shop";
  mutation_lease_seconds = 300;
  mutation_verification_lease_seconds = 180;
  mutation_verification_timeout_seconds = 120;
  mutation_verification_interval = 2000000;
  mutation_recovery_grace_seconds = 30;
  mutation_recovery_batch_size = 10;
  mutation_max_verification_attempts = 5;
  mutation_max_verification_age_seconds = 3600;
}

abbrev deployment : Fields
deployment =
    field "kind" (str "Deployment")
      (field "metadata" (obj (field "name" (str "web") (field "namespace" (str "shop") done))) done)

abbrev reader : Yaml
reader = record {
  load_all = λ s. some (obj deployment ∷ []);
  dump_all = λ ds. "";
  load = λ s. none;
  dump = λ v. "";
  error_text = λ s. "";
  spread_aliases = λ s ds. ds;
}

abbrev web : Target
web = record {
  api_version = "v1";
  kind = "Deployment";
  name = "web";
  namespace = "shop";
  desired_spec = none;
}

abbrev args : Fields
args = field "content" (str "web.yaml") done

web-IsAuthorized :
    IsAuthorized settings reader "k8s_apply" args (some "u1") (some "Admin") none (web ∷ [])
unfolding parse_manifest_targets allowed_namespaces one_of lookup lower strip split remove text
    documents targets_of target_of add_target
web-IsAuthorized = record {
  authenticated = refl;
  admin = refl;
  manifest = inl (refl, refl, refl, (refl, tt));
  resource_type = refl;
  cluster = refl;
  namespaces = (refl, tt);
}

evaluate_iff_example :
    ((decision settings reader "k8s_apply" args (some "u1") (some "Admin") none).allowed ≡ true)
    × ((decision settings reader "k8s_apply" args (some "u1") (some "Admin") none).targets
        ≡ web ∷ [])
evaluate_iff_example =
    (evaluate_iff settings reader "k8s_apply" args (some "u1") (some "Admin") none (web ∷ [])).1
      web-IsAuthorized
