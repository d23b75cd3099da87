-- ===== src/Tools/Helm/Parts.antt =====
-- mcp/tools/helm.py: how a command line is taken apart again at its spaces.
use Prim.Native.Char.{code}
use Prim.Native.String.{◌++◌}
use text.Mathlib.TextLemmas.{cons-append, nil-append}
use cloudops_agent.Prelude.{
  ℕ, String, Bool, false, not, ◌||◌, ◌≡◌, refl, ap, ◌∙◌, arith, List, [], ◌∷◌, ◌++◌ as append,
  filter, inl, inr, Bool-cases, nat_eq,
}
use cloudops_agent.Text.{split, push_head, is_empty}
use cloudops_agent.Tools.Helm.{command_parts}

filter-append {ℓ} :
    {A : Type ℓ} (p : A → Bool) (xs ys : List A)
    → filter p (append xs ys) ≡ append (filter p xs) (filter p ys)
filter-append p [] ys = refl
filter-append p (x ∷ xs) ys = elim (Bool-cases (p x)) [
  | inl e ↦ rw e (ap (λ l. x ∷ l) (filter-append p xs ys))
  | inr e ↦ rw e (filter-append p xs ys)
]

split-some : (d : ℕ) (s : String) → (h : String) × (rest : List String) × (split d s ≡ h ∷ rest)
unfolding split push_head
split-some d String.[] = (String.[], [], refl)
split-some d (String.◌∷◌ c s) = elim (Bool-cases (nat_eq (code c) d)) [
  | inl e ↦ (String.[], split d s, rw e refl)
  | inr e ↦ let (h, rest, there) = split-some d s in (String.◌∷◌ c h, rest, rw (e, there) refl)
]

space-append : (t : String) → " " ++ t ≡ String.◌∷◌ " " t
space-append t = cons-append " " String.[] t ∙ ap (λ (r : String). String.◌∷◌ " " r) (nil-append t)

split-append : (s t : String) → split b' ' (s ++ " " ++ t) ≡ append (split b' ' s) (split b' ' t)
unfolding split push_head
split-append String.[] t = rw (nil-append (" " ++ t), space-append t) refl
split-append (String.◌∷◌ c s) t = elim (Bool-cases (nat_eq (code c) b' ')) [
  | inl e ↦
      rw (cons-append c s (" " ++ t), e)
        (ap (λ (l : List String). String.[] ∷ l) (split-append s t))
  | inr e ↦
      let (h, rest, there) = split-some b' ' s in
      rw (cons-append c s (" " ++ t), e) (rw (split-append s t) (rw there refl))
]

-- The parts of a command line that goes on after a space.
pub command_parts-append :
    (s t : String) → command_parts (s ++ " " ++ t) ≡ append (command_parts s) (command_parts t)
unfolding command_parts
command_parts-append s t =
    ap (λ l. filter (λ part. not (is_empty part)) l) (split-append s t)
    ∙ filter-append (λ part. not (is_empty part)) (split b' ' s) (split b' ' t)

unfoldable pub has_space : String → Bool
has_space String.[] = false
has_space (String.◌∷◌ c s) = nat_eq (code c) b' ' || has_space s

-- A text that is one part of a command line.
abbrev pub IsWord : String → Type 0
IsWord w = (is_empty w ≡ false) × (has_space w ≡ false)

split-word : (w : String) → has_space w ≡ false → split b' ' w ≡ w ∷ []
unfolding split push_head has_space
split-word String.[] h = refl
split-word (String.◌∷◌ c s) h =
    let no_space : nat_eq (code c) b' ' ≡ false = ground arith in
    let none_after : has_space s ≡ false = ground arith in
    rw (no_space, split-word s none_after) refl

pub command_parts-word : (w : String) → IsWord w → command_parts w ≡ w ∷ []
unfolding command_parts
command_parts-word w (nonempty, no_space) = rw (split-word w no_space, nonempty) refl

has_space-append : (s t : String) → has_space (s ++ t) ≡ (has_space s || has_space t)
unfolding has_space
has_space-append String.[] t = ap has_space (nil-append t)
has_space-append (String.◌∷◌ c s) t = rw (cons-append c s t) (ground (arith, has_space-append s t))

is_empty-append : (s t : String) → is_empty s ≡ false → is_empty (s ++ t) ≡ false
is_empty-append String.[] t h = cc
is_empty-append (String.◌∷◌ c s) t h = ap is_empty (cons-append c s t)

-- A word after a prefix that is one.
pub append-IsWord : (s t : String) → IsWord s → has_space t ≡ false → IsWord (s ++ t)
append-IsWord s t (nonempty, no_space) also =
    (is_empty-append s t nonempty, has_space-append s t ∙ rw (no_space, also) refl)
