-- ===== src/Mutation/Manifest/Secrets.antt =====
-- engine/src/api/services/mutation_utils.py: what a Secret shows after `redact_manifest_content`.

use cloudops_agent.Prelude.{
  String, true, false, ◌≡◌, refl, ap, arith, ◌⊎◌, inl, inr, none, some, Option-cases, eq_refl, ◌==◌,
}
use cloudops_agent.Text.{lower}
use cloudops_agent.Json.{Fields}
use cloudops_agent.Json.Access.{lookup, get, lookup-insert}
use cloudops_agent.Mutation.Redact.{redacted, redact_fields, redact_sensitive}
use cloudops_agent.Mutation.Redact.Laws.{shown, lookup-redact_fields}
use cloudops_agent.Mutation.Manifest.{redact_document, text_or, hide}

-- The dict has no entry at the key, or the mark stands there.
abbrev pub Hides : String → Fields → Type 0
Hides k d = (lookup k d ≡ none) ⊎ (lookup k d ≡ some redacted)

shown-redacted : (k : String) → shown k redacted ≡ redacted
unfolding redact_sensitive
shown-redacted k = ground arith

Hides-redact_fields : (k : String) (d : Fields) → Hides k d → Hides k (redact_fields d)
Hides-redact_fields k d (inl e) = inl (rw lookup-redact_fields (rw e))
Hides-redact_fields k d (inr e) = inr (rw lookup-redact_fields (rw e (ap some (shown-redacted k))))

Hides-hide_self : (k : String) (d : Fields) → Hides k (hide k d)
Hides-hide_self k d = elim (Option-cases (lookup k d)) [
  | inl e ↦ inl (rw e e)
  | inr (v, e) ↦ inr (rw e (simp (lookup-insert, eq_refl)))
]

Hides-hide_other : (k j : String) (d : Fields) → (j == k) ≡ false → Hides k d → Hides k (hide j d)
Hides-hide_other k j d ne h = elim (Option-cases (lookup j d)) [
  | inl e ↦ rw e h
  | inr (v, e) ↦ rw e (elim h [
    | inl a ↦ inl (simp lookup-insert (rw ne a))
    | inr a ↦ inr (simp lookup-insert (rw ne a))
  ])
]

-- A document whose kind reads "secret" in any case shows none of its payload after redaction: at
-- `data` and at `stringData` there is no entry, or the mark.
pub redact_document-Hides :
    (raw : Fields)
    → (lower (text_or (get "kind" raw) "") == "secret") ≡ true
    → Hides "data" (redact_document raw) × Hides "stringData" (redact_document raw)
unfolding redact_document
redact_document-Hides raw secret = rw secret (
  Hides-redact_fields "data" _
      (Hides-hide_other "data" "stringData" _ refl (Hides-hide_self "data" raw)),
  Hides-redact_fields "stringData" _ (Hides-hide_self "stringData" _),
)
