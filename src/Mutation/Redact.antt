-- ===== src/Mutation/Redact.antt =====
-- engine/src/api/services/mutation_utils.py: redaction of sensitive fields.
pub mod Laws
use Prim.Native.String.{len}
use cloudops_agent.Prelude.{
  String, Bool, true, false, not, ◌&&◌, ◌||◌, List, [], ◌∷◌, Option, none, some, any, starts_with,
  code, nat_eq, ◌==◌, if◌then◌else◌, map,
}
use cloudops_agent.Text.{is_empty, lower, drop_bytes}
use cloudops_agent.Json.{
  Value, null, bool, num, str, arr, obj, Items, nil, cons, Fields, done, field,
}
use cloudops_agent.Json.Access.{get, insert, is_obj, lookup, truthy}

abbrev pub sensitive_words : List String
sensitive_words =
    "password" ∷ "passwd" ∷ "secret" ∷ "token" ∷ "api_key" ∷ "apikey" ∷ "authorization"
    ∷ "credential" ∷ []

-- `($|_)`, where `$` also stands before a last line break
unfoldable pub ends_word : String → Bool
ends_word s = is_empty s || s == "\n" || starts_with s "_"

-- one word and `s?($|_)` at the text's start
unfoldable pub word_at : String → String → Bool
word_at s word =
    let rest = drop_bytes (len word) s in
    starts_with s word && (ends_word rest || starts_with rest "s" && ends_word (drop_bytes 1 rest))

-- the search from a place where `(^|_)` has matched, or has not
unfoldable pub search_from : Bool → String → Bool
search_from boundary String.[] = false
search_from boundary (String.◌∷◌ c s) =
    boundary && any (word_at (String.◌∷◌ c s)) sensitive_words
    || search_from (nat_eq (code c) b'_') s

-- `_SENSITIVE_KEY.search(key)`, which ignores case
unfoldable pub is_sensitive : String → Bool
unfolding ends_word word_at search_from lower
is_sensitive key = search_from true (lower key)

abbrev pub redacted : Value
redacted = str "[REDACTED]"

-- The call `redact_sensitive(value, key)` at a dict's entry and, with no key, elsewhere.
unfoldable mutual
  pub redact_sensitive : Value → Value
  redact_sensitive null = null
  redact_sensitive (bool b) = bool b
  redact_sensitive (num n) = num n
  redact_sensitive (str s) = str s
  redact_sensitive (arr xs) = arr (redact_items xs)
  redact_sensitive (obj fs) = obj (redact_fields fs)

  pub redact_items : Items → Items
  redact_items nil = nil
  redact_items (cons v xs) = cons (redact_sensitive v) (redact_items xs)

  pub redact_fields : Fields → Fields
  redact_fields done = done
  redact_fields (field k v fs) =
      field k (if not (is_empty k) && is_sensitive k then redacted else redact_sensitive v)
        (redact_fields fs)
