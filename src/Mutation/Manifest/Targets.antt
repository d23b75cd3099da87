-- ===== src/Mutation/Manifest/Targets.antt =====
-- engine/src/api/services/mutation_utils.py: the operation marker in a manifest, and the targets that
-- the policy and the verifier read from it.
use cloudops_agent.Prelude.{
  String, ◌≡◌, refl, sym, ◌∙◌, ap, ap₂, subst, some_inj, arith, some, List, [], ◌∷◌, map,
  >>=-eq-some,
}
use cloudops_agent.Json.{Value, str, obj, Fields}
use cloudops_agent.Json.Access.{get, insert, fields_of, lookup-insert}
use cloudops_agent.Json.Print.{text}
use cloudops_agent.Mutation.Manifest.{
  Yaml, documents, target_of, targets_of, add_target, mark_annotations, mark_metadata,
  mark_document, mark_documents, marked_content, parse_manifest_targets, attach_operation_metadata,
  dict_at, text_or,
}

-- A document is marked by replacing its metadata, whose annotations are replaced.
pub record IsMarked (operation_id desired_state_hmac : String) (raw d : Fields) : Type 0 where
  pub metadata : Fields
  pub annotations : Fields
  pub found_metadata : dict_at "metadata" raw ≡ some metadata
  pub found_annotations : dict_at "annotations" metadata ≡ some annotations
  pub result :
      d
      ≡ insert "metadata"
          (obj (
            insert "annotations"
              (obj (mark_annotations operation_id desired_state_hmac annotations))
              metadata))
          raw

module _ (operation_id desired_state_hmac : String) where
  mark_document-IsMarked :
      (raw d : Fields)
      → mark_document operation_id desired_state_hmac raw ≡ some d
      → IsMarked operation_id desired_state_hmac raw d
  unfolding mark_document mark_metadata
  mark_document-IsMarked raw d h =
      let (metadata, found, rest) = >>=-eq-some (dict_at "metadata" raw) _ h in
      let (marked, m, last) = >>=-eq-some (mark_metadata _ _ metadata) _ rest in
      let (annotations, a, e) = >>=-eq-some (dict_at "annotations" metadata) _ m in
      record {
        metadata = metadata;
        annotations = annotations;
        found_metadata = found;
        found_annotations = a;
        result = cc;
      }

dict_at-fields_of : (k : String) (d e : Fields) → dict_at k d ≡ some e → fields_of (get k d) ≡ e
dict_at-fields_of k d e h = ground arith

target_of-IsMarked :
    {operation_id desired_state_hmac : String} {raw d : Fields} (default_namespace : String)
    → IsMarked operation_id desired_state_hmac raw d
    → target_of default_namespace d ≡ target_of default_namespace raw
unfolding target_of
target_of-IsMarked {raw = raw} default_namespace m =
    rw m.result
      (simp lookup-insert (rw (dict_at-fields_of "metadata" raw m.metadata m.found_metadata)))

module _ (operation_id desired_state_hmac default_namespace : String) where
  targets_of-mark_documents :
      (docs marked : List Fields)
      → mark_documents operation_id desired_state_hmac docs ≡ some marked
      → targets_of default_namespace marked ≡ targets_of default_namespace docs
  unfolding mark_documents targets_of
  targets_of-mark_documents [] [] h = refl
  targets_of-mark_documents [] (m ∷ marked) h = cc
  targets_of-mark_documents (raw ∷ rest) marked h =
      let (d, e, r) = >>=-eq-some (mark_document operation_id desired_state_hmac raw) _ h in
      let (ds, es, l) = >>=-eq-some (mark_documents operation_id desired_state_hmac rest) _ r in
      let first : target_of default_namespace d ≡ target_of default_namespace raw =
        target_of-IsMarked default_namespace (mark_document-IsMarked _ _ raw d e) in
      subst
        (λ (docs : List Fields).
          targets_of default_namespace docs ≡ targets_of default_namespace (raw ∷ rest))
        (some_inj l) (ap₂ add_target first (targets_of-mark_documents rest ds es))

documents-obj : (docs : List Fields) → documents (map obj docs) ≡ docs
unfolding documents
documents-obj [] = refl
documents-obj (d ∷ docs) = ap (λ ds. d ∷ ds) (documents-obj docs)

-- What PyYAML documents of a dump and of aliases: the marked documents of a manifest read back as they
-- were, and a manifest without aliases shares no dict.
pub record ReadsBack (yaml : Yaml) (content operation_id desired_state_hmac : String) : Type 0 where
  pub reads_back :
      (docs : List Value) (marked : List Fields)
      → yaml.load_all content ≡ some docs
      → mark_documents operation_id desired_state_hmac (documents docs) ≡ some marked
      → yaml.load_all (yaml.dump_all (map obj marked)) ≡ some (map obj marked)
  pub unshared : (marked : List Fields) → yaml.spread_aliases content marked ≡ marked

marked_content-targets :
    (yaml : Yaml) (content operation_id desired_state_hmac default_namespace : String)
    {marked : String}
    → ReadsBack yaml content operation_id desired_state_hmac
    → marked_content yaml content operation_id desired_state_hmac ≡ some marked
    → parse_manifest_targets yaml marked default_namespace
      ≡ parse_manifest_targets yaml content default_namespace
unfolding marked_content parse_manifest_targets
marked_content-targets yaml content op hmac ns law h =
    let (docs, e, r) = >>=-eq-some (yaml.load_all content) _ h in
    let (ds, es, l) = >>=-eq-some (mark_documents op hmac (documents docs)) _ r in
    subst
      (λ (c : String). parse_manifest_targets yaml c ns ≡ parse_manifest_targets yaml content ns)
      (ap (λ (ms : List Fields). yaml.dump_all (map obj ms)) (sym (law.unshared ds)) ∙ some_inj l)
      (rw (law.reads_back docs ds e es, e)
        (rw (documents-obj ds)
          (ap some (targets_of-mark_documents op hmac ns (documents docs) ds es))))

text_or_str : (s : String) → text_or (str s) "" ≡ s
unfolding text
text_or_str String.[] = refl
text_or_str (String.◌∷◌ c s) = refl

-- Where the manifest has no YAML aliases and PyYAML reads back the marked documents that it dumps, the
-- operation marker changes no target: the manifest that is executed has the targets, with their
-- desired specs, that the policy judged and the verification plan holds.
pub parse_manifest_targets-attach :
    (yaml : Yaml) (args : Fields) (operation_id desired_state_hmac default_namespace : String)
    {prepared : Fields}
    → ReadsBack yaml (text_or (get "content" args) "") operation_id desired_state_hmac
    → attach_operation_metadata yaml "k8s_apply" args operation_id desired_state_hmac
      ≡ some prepared
    → parse_manifest_targets yaml (text_or (get "content" prepared) "") default_namespace
      ≡ parse_manifest_targets yaml (text_or (get "content" args) "") default_namespace
unfolding attach_operation_metadata
parse_manifest_targets-attach yaml args op hmac ns law h =
    let (content, e, l) =
      >>=-eq-some (marked_content yaml (text_or (get "content" args) "") op hmac) _ h in
    subst
      (λ (d : Fields).
        parse_manifest_targets yaml (text_or (get "content" d) "") ns
        ≡ parse_manifest_targets yaml (text_or (get "content" args) "") ns)
      (some_inj l)
      (simp lookup-insert (rw text_or_str (marked_content-targets yaml _ op hmac ns law e)))
