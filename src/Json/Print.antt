-- ===== src/Json/Print.antt =====
-- `str(v)` of Python, with the `repr` of what a list or dict holds, and `json.dumps` of the journal's
-- canonical form.
use Prim.Native.String.{◌++◌, char_at}
use cloudops_agent.Prelude.{
  String, Char, code, Bool, true, false, not, ◌&&◌, ◌||◌, ltb, nat_eq, ◌/◌, ◌%◌, ◌+◌, ◌-◌, ℕ, suc,
  if◌then◌else◌,
}
use cloudops_agent.Text.{decimal}
use cloudops_agent.Json.{
  ℤ, pos, negsuc, Value, null, bool, num, str, arr, obj, Items, nil, cons, Fields, done, field,
}

abbrev one : Char → String
one c = String.◌∷◌ c String.[]

hex : ℕ → String
hex n = one (char_at "0123456789abcdef" (n % 16))

number : ℤ → String
unfolding decimal
number (pos n) = decimal n
number (negsuc n) = "-" ++ decimal (suc n)

has_code : ℕ → String → Bool
has_code n String.[] = false
has_code n (String.◌∷◌ c s) = nat_eq (code c) n || has_code n s

-- One character of a `repr` between quotes of code `quote`; what ASCII does not print is escaped.
repr_char : ℕ → Char → String
unfolding hex
repr_char quote c =
    let n = code c in
    if nat_eq n quote || nat_eq n b'\\'
    then "\\" ++ one c
    else if nat_eq n b'\n'
    then "\\n"
    else if nat_eq n b'\r'
    then "\\r"
    else if nat_eq n b'\t'
    then "\\t"
    else if ltb n 32 || nat_eq n 127
    then "\\x" ++ hex (n / 16) ++ hex n
    else one c

repr_chars : ℕ → String → String
repr_chars quote String.[] = ""
repr_chars quote (String.◌∷◌ c s) = repr_char quote c ++ repr_chars quote s

repr_text : String → String
unfolding has_code repr_chars repr_char
repr_text s =
    if has_code b'\'' s && not (has_code b'"' s)
    then "\"" ++ repr_chars b'"' s ++ "\""
    else "'" ++ repr_chars b'\'' s ++ "'"

mutual
  unfolding number repr_text

  repr : Value → String
  repr null = "None"
  repr (bool true) = "True"
  repr (bool false) = "False"
  repr (num n) = number n
  repr (str s) = repr_text s
  repr (arr xs) = "[" ++ repr_items xs ++ "]"
  repr (obj fs) = "{" ++ repr_fields fs ++ "}"

  repr_items : Items → String
  repr_items nil = ""
  repr_items (cons v nil) = repr v
  repr_items (cons v (cons w xs)) = repr v ++ ", " ++ repr_items (cons w xs)

  repr_fields : Fields → String
  repr_fields done = ""
  repr_fields (field k v done) = repr_text k ++ ": " ++ repr v
  repr_fields (field k v (field j w fs)) =
      repr_text k ++ ": " ++ repr v ++ ", " ++ repr_fields (field j w fs)

-- f"{v!r}"
unfoldable pub shown : Value → String
unfolding repr
shown v = repr v

-- str(v)
unfoldable pub text : Value → String
unfolding repr
text (str s) = s
text v = repr v

-- `json.dumps` with `ensure_ascii=False`
json_char : Char → String
unfolding hex
json_char c =
    let n = code c in
    if nat_eq n b'"' || nat_eq n b'\\'
    then "\\" ++ one c
    else if nat_eq n b'\n'
    then "\\n"
    else if nat_eq n b'\r'
    then "\\r"
    else if nat_eq n b'\t'
    then "\\t"
    else if nat_eq n 8
    then "\\b"
    else if nat_eq n 12
    then "\\f"
    else if ltb n 32
    then "\\u00" ++ hex (n / 16) ++ hex n
    else one c

json_chars : String → String
json_chars String.[] = ""
json_chars (String.◌∷◌ c s) = json_char c ++ json_chars s

unfoldable pub json_text : String → String
unfolding json_chars json_char
json_text s = "\"" ++ json_chars s ++ "\""

unfoldable pub json_number : ℤ → String
unfolding number
json_number n = number n

-- `json.dumps(v, indent=2)`: `ensure_ascii` escapes what lies outside ASCII
hex4 : ℕ → String
unfolding hex
hex4 n = hex (n / 4096) ++ hex (n / 256) ++ hex (n / 16) ++ hex n

-- Outside the basic plane, the two halves of a surrogate pair.
ascii_char : Char → String
unfolding hex4 json_char
ascii_char c =
    let n = code c in
    if ltb n 127
    then json_char c
    else if ltb n 0x10000
    then "\\u" ++ hex4 n
    else "\\u"
      ++ hex4 (0xd800 + (n - 0x10000) / 0x400)
      ++ "\\u"
      ++ hex4 (0xdc00 + (n - 0x10000) % 0x400)

ascii_chars : String → String
unfolding ascii_char
ascii_chars String.[] = ""
ascii_chars (String.◌∷◌ c s) = ascii_char c ++ ascii_chars s

ascii_text : String → String
unfolding ascii_chars
ascii_text s = "\"" ++ ascii_chars s ++ "\""

mutual
  unfolding number ascii_text

  -- The first argument is the line break with the margin of the value that is printed.
  indented : String → Value → String
  indented margin null = "null"
  indented margin (bool true) = "true"
  indented margin (bool false) = "false"
  indented margin (num n) = number n
  indented margin (str s) = ascii_text s
  indented margin (arr nil) = "[]"
  indented margin (arr (cons v xs)) =
      "[" ++ indented_items (margin ++ "  ") (cons v xs) ++ margin ++ "]"
  indented margin (obj done) = "{}"
  indented margin (obj (field k v fs)) =
      "{" ++ indented_fields (margin ++ "  ") (field k v fs) ++ margin ++ "}"

  indented_items : String → Items → String
  indented_items margin nil = ""
  indented_items margin (cons v nil) = margin ++ indented margin v
  indented_items margin (cons v (cons w xs)) =
      margin ++ indented margin v ++ "," ++ indented_items margin (cons w xs)

  indented_fields : String → Fields → String
  indented_fields margin done = ""
  indented_fields margin (field k v done) = margin ++ ascii_text k ++ ": " ++ indented margin v
  indented_fields margin (field k v (field j w fs)) =
      margin
      ++ ascii_text k
      ++ ": "
      ++ indented margin v
      ++ ","
      ++ indented_fields margin (field j w fs)

unfoldable pub json_indented : Value → String
unfolding indented
json_indented v = indented "\n" v
