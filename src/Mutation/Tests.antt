-- ===== src/Mutation/Tests.antt =====
-- Redaction and manifests at concrete values.
use cloudops_agent.Prelude.{
  true, false, none, some, List, [], ◌∷◌, ◌≡◌, refl, ap, map, some_inj, subst, sym, ◌∙◌, ◌==◌,
  if◌then◌else◌,
}
use cloudops_agent.Text.{lower}
use cloudops_agent.Json.{Value, str, num, pos, arr, obj, Fields, done, field, of_list}
use cloudops_agent.Json.Access.{get, lookup, insert}
use cloudops_agent.Json.Print.{text}
use cloudops_agent.Mutation.Redact.{
  is_sensitive, search_from, word_at, ends_word, redact_sensitive, redact_fields, redacted,
}
use cloudops_agent.Mutation.Redact.Laws.{IsClean, redact_sensitive-IsClean}
use cloudops_agent.Mutation.Manifest.{
  Yaml, text_or, documents, parse_manifest_targets, attach_operation_metadata, mark_document,
  mark_documents, mark_metadata, mark_annotations, redact_document, marked_content,
}
use cloudops_agent.Mutation.Manifest.Targets.{ReadsBack, parse_manifest_targets-attach}
use cloudops_agent.Mutation.Manifest.Secrets.{Hides, redact_document-Hides}

abbrev login : Fields
login = field "user" (str "ada") (field "api_token" (str "abc") done)

abbrev nested : Value
nested = obj (field "steps" (arr (of_list (obj login ∷ []))) done)

abbrev hidden_login : Fields
hidden_login = field "user" (str "ada") (field "api_token" redacted done)

login_redacted : redact_fields login ≡ hidden_login
unfolding redact_fields redact_sensitive is_sensitive search_from word_at ends_word lower
login_redacted = refl

plural_is_sensitive : is_sensitive "Client_Secrets" ≡ true
unfolding is_sensitive search_from word_at ends_word lower
plural_is_sensitive = refl

part_is_not : is_sensitive "tokenizer" ≡ false
unfolding is_sensitive search_from word_at ends_word lower
part_is_not = refl

redact_sensitive-IsClean_example : IsClean (redact_sensitive nested)
redact_sensitive-IsClean_example = redact_sensitive-IsClean nested

abbrev secret : Fields
secret = field "kind" (str "Secret") (
    field "metadata" (obj (field "name" (str "db") done))
      (field "data" (obj (field "user" (str "cm9vdA==") done)) done))

redact_document-Hides_example :
    Hides "data" (redact_document secret) × Hides "stringData" (redact_document secret)
unfolding lower lookup text
redact_document-Hides_example = redact_document-Hides secret refl

abbrev deployment : Fields
deployment = field "kind" (str "Deployment") (
    field "metadata" (obj (field "name" (str "web") done))
      (field "spec" (obj (field "replicas" (num (pos 2)) done)) done))

abbrev marks : Fields
marks =
    field "skyflo.ai/operation-id" (str "op-1")
      (field "skyflo.ai/desired-state-hmac" (str "hmac") done)

abbrev marked_deployment : Fields
marked_deployment = field "kind" (str "Deployment") (
    field "metadata" (obj (field "name" (str "web") (field "annotations" (obj marks) done)))
      (field "spec" (obj (field "replicas" (num (pos 2)) done)) done))

-- A reader that knows two texts.
abbrev reader : Yaml
reader = record {
  load_all =
      λ s. if s == "web" then some (obj deployment ∷ []) else some (obj marked_deployment ∷ []);
  dump_all = λ ds. "marked web";
  load = λ s. none;
  dump = λ v. "";
  error_text = λ s. "";
  spread_aliases = λ s ds. ds;
}

deployment_marked : mark_documents "op-1" "hmac" (deployment ∷ []) ≡ some (marked_deployment ∷ [])
unfolding mark_documents mark_document mark_metadata mark_annotations lookup insert
deployment_marked = refl

reader_reads_back :
    (docs : List Value) (marked : List Fields)
    → some (obj deployment ∷ []) ≡ some docs
    → mark_documents "op-1" "hmac" (documents docs) ≡ some marked
    → some (obj marked_deployment ∷ []) ≡ some (map obj marked)
unfolding documents
reader_reads_back docs marked e h =
    let marked_of : mark_documents "op-1" "hmac" (deployment ∷ []) ≡ some marked =
      subst (λ (ds : List Value). mark_documents "op-1" "hmac" (documents ds) ≡ some marked)
        (sym (some_inj e)) h in
    ap (λ (ms : List Fields). some (map obj ms)) (some_inj (sym deployment_marked ∙ marked_of))

reader-ReadsBack :
    ReadsBack reader (text_or (get "content" (field "content" (str "web") done)) "") "op-1" "hmac"
unfolding lookup text
reader-ReadsBack = record { reads_back = reader_reads_back; unshared = λ marked. refl }

attached :
    attach_operation_metadata reader "k8s_apply" (field "content" (str "web") done) "op-1" "hmac"
    ≡ some (field "content" (str "marked web") done)
unfolding attach_operation_metadata marked_content mark_documents mark_document mark_metadata
    mark_annotations lookup insert text documents
attached = refl

parse_manifest_targets-attach_example :
    parse_manifest_targets reader "marked web" "default"
    ≡ parse_manifest_targets reader "web" "default"
unfolding lookup text
parse_manifest_targets-attach_example =
    parse_manifest_targets-attach reader (field "content" (str "web") done) "op-1" "hmac" "default"
      reader-ReadsBack attached
