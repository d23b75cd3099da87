-- ===== src/Json/Access.antt =====
-- `dict` operations and the truth value of a `Value`.
use cloudops_agent.Prelude.{
  String, Bool, true, false, not, Option, none, some, ◌≡◌, refl, arith, eq_iff, ◌==◌, if◌then◌else◌,
  nat_eq,
}
use cloudops_agent.Text.{is_empty}
use cloudops_agent.Json.{
  pos, negsuc, Value, null, bool, num, str, arr, obj, nil, cons, Fields, done, field,
}

-- bool(v)
abbrev pub truthy : Value → Bool
truthy null = false
truthy (bool b) = b
truthy (num (pos n)) = not (nat_eq n 0)
truthy (num (negsuc n)) = true
truthy (str s) = not (is_empty s)
truthy (arr nil) = false
truthy (arr (cons v xs)) = true
truthy (obj done) = false
truthy (obj (field k v fs)) = true

-- d.get(k)
unfoldable pub lookup : String → Fields → Option Value
lookup k done = none
lookup k (field j v fs) = if j == k then some v else lookup k fs

abbrev pub or_null : Option Value → Value
or_null none = null
or_null (some v) = v

abbrev pub get : String → Fields → Value
get k d = or_null (lookup k d)

-- d.get(k) or {} …, where what is found may be anything
abbrev pub or_else : Value → Value → Value
or_else v w = if truthy v then v else w

-- d[k] = v
unfoldable pub insert : String → Value → Fields → Fields
insert k v done = field k v done
insert k v (field j w fs) = if j == k then field j v fs else field j w (insert k v fs)

pub lookup-insert :
    (k j : String) (v : Value) (d : Fields)
    → lookup j (insert k v d) ≡ (if k == j then some v else lookup j d)
unfolding lookup insert
lookup-insert k j v done = refl
lookup-insert k j v (field i w d) =
    ground (arith, eq_iff k j, eq_iff i k, eq_iff i j, lookup-insert k j v d)

-- isinstance(v, dict)
abbrev pub is_obj : Value → Bool
is_obj (obj fs) = true
is_obj null = false
is_obj (bool b) = false
is_obj (num n) = false
is_obj (str s) = false
is_obj (arr xs) = false

-- the dict itself where v is one, and an empty one where it is not
abbrev pub fields_of : Value → Fields
fields_of (obj fs) = fs
fields_of _ = done
