-- ===== src/Verifier/Match/Reflexive.antt =====
-- engine/src/api/services/mutation_verifier.py: `_subset_matches` accepts a resource that is just what was
-- desired.
use cloudops_agent.Prelude.{true, false, some, ◌≡◌, refl, arith, eq_refl, inl, inr, Bool-cases}
use cloudops_agent.Json.{
  ℤ, pos, negsuc, Value, null, bool, num, str, arr, obj, Items, nil, cons, Fields, done, field,
}
use cloudops_agent.Json.Access.{lookup}
use cloudops_agent.Verifier.Match.{
  int_eq, all_named, by_name, name_of, subset_matches, fields_match, named_match, items_match,
}

-- Each entry is the one that its key finds in a dict, and each item the one that its name finds.
abbrev pub Finds : Fields → Fields → Type 0
Finds d done = Unit {0}
Finds d (field k v fs) = (lookup k d ≡ some v) × Finds d fs

abbrev pub FindsNames : Items → Items → Type 0
FindsNames all nil = Unit {0}
FindsNames all (cons v xs) = (by_name (name_of v) all ≡ some v) × FindsNames all xs

-- No dict has a key twice, and no list of named items a name twice, at any depth.
abbrev mutual
  pub IsPlain : Value → Type 0
  IsPlain null = Unit {0}
  IsPlain (bool b) = Unit {0}
  IsPlain (num n) = Unit {0}
  IsPlain (str s) = Unit {0}
  IsPlain (arr xs) = (all_named xs ≡ true → FindsNames xs xs) × ArePlain xs
  IsPlain (obj d) = Finds d d × HasPlainFields d

  pub ArePlain : Items → Type 0
  ArePlain nil = Unit {0}
  ArePlain (cons v xs) = IsPlain v × ArePlain xs

  pub HasPlainFields : Fields → Type 0
  HasPlainFields done = Unit {0}
  HasPlainFields (field k v fs) = IsPlain v × HasPlainFields fs

int_eq_refl : (n : ℤ) → int_eq n n ≡ true
int_eq_refl (pos n) = ground arith
int_eq_refl (negsuc n) = ground arith

mutual
  unfolding subset_matches fields_match named_match items_match

  matches_itself : (v : Value) → IsPlain v → subset_matches v v ≡ true
  matches_itself null h = refl
  matches_itself (bool true) h = refl
  matches_itself (bool false) h = refl
  matches_itself (num n) h = int_eq_refl n
  matches_itself (str s) h = eq_refl s
  matches_itself (obj d) h = fields_match_self d d h.0 h.1
  matches_itself (arr xs) h = elim (Bool-cases (all_named xs)) [
    | inl e ↦ ground (arith, named_match_self xs xs (h.0 e) h.1)
    | inr e ↦ ground (arith, items_match_self xs h.1)
  ]

  fields_match_self : (fs d : Fields) → Finds d fs → HasPlainFields fs → fields_match fs d ≡ true
  fields_match_self done d f h = refl
  fields_match_self (field k v fs) d f h =
      rw (f.0, matches_itself v h.0, fields_match_self fs d f.1 h.1) refl

  named_match_self : (xs all : Items) → FindsNames all xs → ArePlain xs → named_match xs all ≡ true
  named_match_self nil all f h = refl
  named_match_self (cons v xs) all f h =
      rw (f.0, matches_itself v h.0, named_match_self xs all f.1 h.1) refl

  items_match_self : (xs : Items) → ArePlain xs → items_match xs xs ≡ true
  items_match_self nil h = refl
  items_match_self (cons v xs) h = rw (matches_itself v h.0, items_match_self xs h.1) refl

-- A value that has no key and no name twice, at any depth, matches itself as the desired state: a
-- resource that is exactly what was applied is accepted.
pub subset_matches_refl : (v : Value) → IsPlain v → subset_matches v v ≡ true
subset_matches_refl v h = matches_itself v h
