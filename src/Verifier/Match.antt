-- ===== src/Verifier/Match.antt =====
-- engine/src/api/services/mutation_verifier.py: `_subset_matches`. A name that is a list or a dict, which
-- Python cannot hash, is found nowhere.
pub mod Reflexive
use cloudops_agent.Prelude.{
  ℕ, suc, String, Bool, true, false, not, ◌&&◌, Option, none, some, ◌≡◌, refl, arith, ltb, nat_eq,
  ◌==◌, if◌then◌else◌,
}
use cloudops_agent.Json.{
  ℤ, pos, negsuc, Value, null, bool, num, str, arr, obj, Items, nil, cons, Fields, done, field,
}
use cloudops_agent.Json.Access.{get, lookup, truthy, is_obj, fields_of}

abbrev pub int_eq : ℤ → ℤ → Bool
int_eq (pos m) (pos n) = nat_eq m n
int_eq (negsuc m) (negsuc n) = nat_eq m n
int_eq _ _ = false

abbrev pub bool_number : Bool → ℤ
bool_number true = pos 1
bool_number false = pos 0

-- Python's `==` where one side is neither a list nor a dict: `True` is 1.
abbrev pub scalar_eq : Value → Value → Bool
scalar_eq null null = true
scalar_eq (bool a) (bool b) = int_eq (bool_number a) (bool_number b)
scalar_eq (bool a) (num n) = int_eq (bool_number a) n
scalar_eq (num m) (bool b) = int_eq m (bool_number b)
scalar_eq (num m) (num n) = int_eq m n
scalar_eq (str s) (str t) = s == t
scalar_eq _ _ = false

-- `x in d and f(d[x])`
abbrev pub found_and : Option Value → (Value → Bool) → Bool
found_and none f = false
found_and (some v) f = f v

abbrev pub size : Fields → ℕ
size done = 0
size (field k v fs) = suc (size fs)

-- Python's `==` of two values; two dicts have the same keys with equal values.
unfoldable mutual
  pub equal : Value → Value → Bool
  equal (arr xs) (arr ys) = equal_items xs ys
  equal (obj d) (obj e) = nat_eq (size d) (size e) && equal_fields d e
  equal (arr xs) _ = false
  equal (obj d) _ = false
  equal null w = scalar_eq null w
  equal (bool b) w = scalar_eq (bool b) w
  equal (num n) w = scalar_eq (num n) w
  equal (str s) w = scalar_eq (str s) w

  pub equal_items : Items → Items → Bool
  equal_items nil nil = true
  equal_items (cons v xs) (cons w ys) = equal v w && equal_items xs ys
  equal_items _ _ = false

  pub equal_fields : Fields → Fields → Bool
  equal_fields done e = true
  equal_fields (field k v fs) e = found_and (lookup k e) (λ w. equal v w) && equal_fields fs e

abbrev pub count : Items → ℕ
count nil = 0
count (cons v xs) = suc (count xs)

-- item.get("name") of a dict
abbrev pub name_of : Value → Value
name_of v = get "name" (fields_of v)

-- isinstance(item, dict) and item.get("name")
abbrev pub is_named : Value → Bool
is_named v = is_obj v && truthy (name_of v)

unfoldable pub all_named : Items → Bool
all_named nil = true
all_named (cons v xs) = is_named v && all_named xs

-- actual_by_name.get(name): of the items with one name the last counts.
abbrev pub or_found : Option Value → Bool → Value → Option Value
or_found (some later) found v = some later
or_found none found v = if found then some v else none

unfoldable pub by_name : Value → Items → Option Value
by_name name nil = none
by_name name (cons v xs) = or_found (by_name name xs) (is_named v && scalar_eq (name_of v) name) v

unfoldable mutual
  pub subset_matches : Value → Value → Bool
  subset_matches (obj desired) (obj actual) = fields_match desired actual
  subset_matches (obj desired) _ = false
  subset_matches (arr desired) (arr actual) =
      let by_names = named_match desired actual in
      let by_places = items_match desired actual in
      if ltb (count actual) (count desired)
      then false
      else if all_named desired
      then by_names
      else by_places
  subset_matches (arr desired) _ = false
  subset_matches null actual = scalar_eq null actual
  subset_matches (bool b) actual = scalar_eq (bool b) actual
  subset_matches (num n) actual = scalar_eq (num n) actual
  subset_matches (str s) actual = scalar_eq (str s) actual

  pub fields_match : Fields → Fields → Bool
  fields_match done actual = true
  fields_match (field k v fs) actual =
      found_and (lookup k actual) (λ a. subset_matches v a) && fields_match fs actual

  pub named_match : Items → Items → Bool
  named_match nil actual = true
  named_match (cons v xs) actual =
      found_and (by_name (name_of v) actual) (λ a. subset_matches v a) && named_match xs actual

  pub items_match : Items → Items → Bool
  items_match nil actual = true
  items_match (cons v xs) nil = false
  items_match (cons v xs) (cons a ys) = subset_matches v a && items_match xs ys
