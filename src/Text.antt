-- ===== src/Text.antt =====
-- Python's `str` methods as the program uses them. Cases are mapped for ASCII letters only.
use cloudops_agent.Prelude.{
  ℕ, zero, suc, ◌-◌, ◌/◌, ◌%◌, Char, code, String, Bool, true, false, ◌&&◌, ◌||◌, List, [], ◌∷◌,
  leb, ltb, nat_eq, if◌then◌else◌,
}
use Prim.Native.String.{◌++◌, char_at, find, len, slice}

-- s.lower()
lower_char : Char → Char
lower_char c =
    if leb b'A' (code c) && leb (code c) b'Z'
    then char_at "abcdefghijklmnopqrstuvwxyz" (code c - b'A')
    else c

unfoldable pub lower : String → String
unfolding lower_char
lower String.[] = String.[]
lower (String.◌∷◌ c s) = String.◌∷◌ (lower_char c) (lower s)

-- str.isspace() of one character
unfoldable pub is_space : ℕ → Bool
is_space n =
    (leb 9 n && leb n 13)
    || (leb 28 n && leb n 32)
    || nat_eq n 0x85
    || nat_eq n 0xa0
    || nat_eq n 0x1680
    || (leb 0x2000 n && leb n 0x200a)
    || nat_eq n 0x2028
    || nat_eq n 0x2029
    || nat_eq n 0x202f
    || nat_eq n 0x205f
    || nat_eq n 0x3000

abbrev pub is_empty : String → Bool
is_empty String.[] = true
is_empty (String.◌∷◌ c s) = false

-- s.lstrip(), s.rstrip() of the characters that a test accepts
unfoldable pub lstrip_by : (ℕ → Bool) → String → String
lstrip_by p String.[] = String.[]
lstrip_by p (String.◌∷◌ c s) = if p (code c) then lstrip_by p s else String.◌∷◌ c s

unfoldable pub rstrip_by : (ℕ → Bool) → String → String
rstrip_by p String.[] = String.[]
rstrip_by p (String.◌∷◌ c s) =
    let rest = rstrip_by p s in if is_empty rest && p (code c) then String.[] else String.◌∷◌ c rest

unfoldable pub strip : String → String
unfolding lstrip_by rstrip_by is_space
strip s = rstrip_by is_space (lstrip_by is_space s)

-- s.split(d) at a separator of one character
unfoldable pub push_head : Char → List String → List String
push_head c [] = String.◌∷◌ c String.[] ∷ []
push_head c (s ∷ parts) = String.◌∷◌ c s ∷ parts

unfoldable pub split : ℕ → String → List String
unfolding push_head
split d String.[] = String.[] ∷ []
split d (String.◌∷◌ c s) =
    let parts = split d s in if nat_eq (code c) d then String.[] ∷ parts else push_head c parts

-- s.replace(d, "") for a character d
unfoldable pub remove : ℕ → String → String
remove d String.[] = String.[]
remove d (String.◌∷◌ c s) =
    let rest = remove d s in if nat_eq (code c) d then rest else String.◌∷◌ c rest

-- t in s
abbrev pub contains : String → String → Bool
contains s t = leb (find s t) (len s)

-- s[n:] after a prefix of n bytes
abbrev pub drop_bytes : ℕ → String → String
drop_bytes n s = slice s n (len s)

-- sep.join(parts)
unfoldable pub join : String → List String → String
join sep [] = ""
join sep (s ∷ []) = s
join sep (s ∷ t ∷ parts) = s ++ sep ++ join sep (t ∷ parts)

-- str(n) for a natural number, with enough fuel for its digits
digits : ℕ → ℕ → String
digits zero n = ""
digits (suc fuel) n =
    let digit = String.◌∷◌ (char_at "0123456789" (n % 10)) String.[] in
    let more = digits fuel (n / 10) in if ltb n 10 then digit else more ++ digit

unfoldable pub decimal : ℕ → String
unfolding digits
decimal n = digits (suc n) n

-- s[:n]
unfoldable pub first_chars : ℕ → String → String
first_chars zero s = String.[]
first_chars (suc n) String.[] = String.[]
first_chars (suc n) (String.◌∷◌ c s) = String.◌∷◌ c (first_chars n s)
