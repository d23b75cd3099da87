-- ===== src/Mutation/Redact/Laws.antt =====
-- What redaction leaves of a value.
use mathlib.Core.Option
use cloudops_agent.Prelude.{
  String, true, false, not, ◌&&◌, some, ◌≡◌, refl, ap, subst, ◌↔◌, arith, eq_iff, inl, inr,
  Bool-cases, ◌==◌, if◌then◌else◌,
}
use cloudops_agent.Text.{is_empty}
use cloudops_agent.Json.{
  Value, null, bool, num, str, arr, obj, Items, nil, cons, Fields, done, field,
}
use cloudops_agent.Json.Access.{lookup}
use cloudops_agent.Mutation.Redact.{
  is_sensitive, redacted, redact_sensitive, redact_items, redact_fields,
}

-- No entry with a sensitive key holds anything but the mark, at any depth.
abbrev mutual
  pub IsClean : Value → Type 0
  IsClean null = Unit {0}
  IsClean (bool b) = Unit {0}
  IsClean (num n) = Unit {0}
  IsClean (str s) = Unit {0}
  IsClean (arr xs) = AreClean xs
  IsClean (obj fs) = HasCleanFields fs

  pub AreClean : Items → Type 0
  AreClean nil = Unit {0}
  AreClean (cons v xs) = IsClean v × AreClean xs

  pub HasCleanFields : Fields → Type 0
  HasCleanFields done = Unit {0}
  HasCleanFields (field k v fs) =
      (is_sensitive k ≡ true → v ≡ redacted) × IsClean v × HasCleanFields fs

empty_insensitive : (k : String) → is_empty k ≡ true → is_sensitive k ≡ false
unfolding is_sensitive
empty_insensitive String.[] h = refl
empty_insensitive (String.◌∷◌ c s) h = cc

mutual
  unfolding redact_sensitive redact_items redact_fields

  IsClean-redact : (v : Value) → IsClean (redact_sensitive v)
  IsClean-redact null = tt
  IsClean-redact (bool b) = tt
  IsClean-redact (num n) = tt
  IsClean-redact (str s) = tt
  IsClean-redact (arr xs) = AreClean-redact xs
  IsClean-redact (obj fs) = HasCleanFields-redact fs

  AreClean-redact : (xs : Items) → AreClean (redact_items xs)
  AreClean-redact nil = tt
  AreClean-redact (cons v xs) = (IsClean-redact v, AreClean-redact xs)

  HasCleanFields-redact : (fs : Fields) → HasCleanFields (redact_fields fs)
  HasCleanFields-redact done = tt
  HasCleanFields-redact (field k v fs) = elim (Bool-cases (not (is_empty k) && is_sensitive k)) [
    | inl e ↦ rw e ((λ s. refl), tt, HasCleanFields-redact fs)
    | inr e ↦
        rw e
          ((λ s. ground (arith, empty_insensitive k)), IsClean-redact v, HasCleanFields-redact fs)
  ]

-- Whatever value is redacted, every entry of the result whose key is sensitive holds the mark
-- "[REDACTED]", in the value itself and in every list and dict inside it.
pub redact_sensitive-IsClean : (v : Value) → IsClean (redact_sensitive v)
redact_sensitive-IsClean v = IsClean-redact v

mutual
  unfolding redact_sensitive redact_items redact_fields

  redact_clean : (v : Value) → IsClean v → redact_sensitive v ≡ v
  redact_clean null h = refl
  redact_clean (bool b) h = refl
  redact_clean (num n) h = refl
  redact_clean (str s) h = refl
  redact_clean (arr xs) h = ap arr (redact_clean_items xs h)
  redact_clean (obj fs) h = ap obj (redact_clean_fields fs h)

  redact_clean_items : (xs : Items) → AreClean xs → redact_items xs ≡ xs
  redact_clean_items nil h = refl
  redact_clean_items (cons v xs) h = cc (redact_clean v h.0, redact_clean_items xs h.1)

  redact_clean_fields : (fs : Fields) → HasCleanFields fs → redact_fields fs ≡ fs
  redact_clean_fields done h = refl
  redact_clean_fields (field k v fs) h = elim (Bool-cases (not (is_empty k) && is_sensitive k)) [
    | inl e ↦ rw e (cc (h.0 (ground arith), redact_clean_fields fs h.2))
    | inr e ↦ rw e (cc (redact_clean v h.1, redact_clean_fields fs h.2))
  ]

-- Redaction changes exactly the values that are not clean: what has no sensitive entry is kept as
-- it is, so redacting twice is redacting once.
pub redact_sensitive-eq_iff : (v : Value) → (redact_sensitive v ≡ v) ↔ IsClean v
redact_sensitive-eq_iff v = ((λ e. subst IsClean e (IsClean-redact v)), redact_clean v)

abbrev pub shown : String → Value → Value
shown k v = if not (is_empty k) && is_sensitive k then redacted else redact_sensitive v

-- A lookup in a redacted dict: no entry is lost or added, a sensitive one shows the mark, and the
-- others show their own redacted value.
pub lookup-redact_fields :
    (k : String) (d : Fields) → lookup k (redact_fields d) ≡ Option.map (shown k) (lookup k d)
unfolding lookup redact_fields
lookup-redact_fields k done = refl
lookup-redact_fields k (field j v d) = elim (Bool-cases (j == k)) [
  | inl e ↦ rw e (ap (λ x. some (shown x v)) ((eq_iff j k).0 e))
  | inr e ↦ rw e (lookup-redact_fields k d)
]
