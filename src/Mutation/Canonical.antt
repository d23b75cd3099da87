-- ===== src/Mutation/Canonical.antt =====
-- engine/src/api/services/mutation_utils.py: `canonical_json` and `hmac_fingerprint`. The digest
-- (HMAC-SHA256 of a key and a payload, in hexadecimal) is Python's `hmac`, and a parameter.
use Prim.Native.String.{◌++◌, compare}
use Prim.Native.Nat.{Ordering}
use cloudops_agent.Prelude.{String, Bool, true, false, List, [], ◌∷◌, map, if◌then◌else◌}
use cloudops_agent.Text.{is_empty, join}
use cloudops_agent.Json.{
  Value, null, bool, num, str, arr, obj, Items, nil, cons, Fields, done, field,
}
use cloudops_agent.Json.Print.{json_text, json_number}

-- `sort_keys=True`: the entries, already printed, in the order of their keys
abbrev place_before : String → String → Bool
place_before j k = elim (compare j k) [ Ordering.gt ↦ false | _ ↦ true ]

insert_sorted : String → String → List (String × String) → List (String × String)
insert_sorted k v [] = (k, v) ∷ []
insert_sorted k v ((j, w) ∷ rest) =
    if place_before k j then (k, v) ∷ (j, w) ∷ rest else (j, w) ∷ insert_sorted k v rest

entry : String × String → String
unfolding json_text
entry (k, v) = json_text k ++ ":" ++ v

mutual
  unfolding json_text json_number insert_sorted join entry

  dumps : Value → String
  dumps null = "null"
  dumps (bool true) = "true"
  dumps (bool false) = "false"
  dumps (num n) = json_number n
  dumps (str s) = json_text s
  dumps (arr xs) = "[" ++ join "," (dumps_items xs) ++ "]"
  dumps (obj fs) = "{" ++ join "," (map entry (dumps_fields fs)) ++ "}"

  dumps_items : Items → List String
  dumps_items nil = []
  dumps_items (cons v xs) = dumps v ∷ dumps_items xs

  dumps_fields : Fields → List (String × String)
  dumps_fields done = []
  dumps_fields (field k v fs) = insert_sorted k (dumps v) (dumps_fields fs)

unfoldable pub canonical_json : Value → String
unfolding dumps
canonical_json v = dumps v

module _ (digest : String → String → String) where
  unfoldable pub hmac_fingerprint : String → List Value → String
  unfolding canonical_json join
  hmac_fingerprint secret values =
      digest (if is_empty secret then "skyflo-unsafe-development-key" else secret)
        (join "\u{1f}" (map canonical_json values))
