-- ===== src/Messages/Window/Bounds.antt =====
-- engine/src/api/utils/sanitization.py: the size of the window.
use cloudops_agent.Prelude.{
  ℕ, zero, suc, ◌+◌, ◌-◌, ◌≤◌, Option, List, [], ◌∷◌, ◌++◌, ◌≡◌, arith, inl, inr, Bool-cases,
  length, filter, leb, leb→le,
}
use cloudops_agent.Json.{Fields}
use cloudops_agent.Messages.Window.{
  drop, last_of, first_user, is_system, is_other, places, with_tail, within, window_messages,
}

length-drop {ℓ} : {A : Type ℓ} (n : ℕ) (xs : List A) → length (drop n xs) ≡ length xs - n
length-drop zero xs = omega arith
length-drop (suc n) [] = omega arith
length-drop (suc n) (x ∷ xs) = omega (arith, length-drop n xs)

length-last_of {ℓ} : {A : Type ℓ} (n : ℕ) (xs : List A) → 1 ≤ n → length (last_of n xs) ≤ n
unfolding last_of
length-last_of n xs h = ground (arith, length-drop (length xs - n) xs)

within-bound :
    (max_messages : ℕ) (systems others : List Fields) (first : Option (Fields × ℕ))
    → 1 ≤ max_messages
    → length (within max_messages systems others first) ≤ max_messages
within-bound max_messages systems others first h =
    elim (Bool-cases (leb max_messages (length systems + places first))) [
      | inl e ↦ rw e (length-last_of max_messages (systems ++ others) h)
      | inr e ↦
          let budget = max_messages - (length systems + places first) in
          let tail = last_of budget others in
          rw e (
            length-last_of max_messages
              (systems ++ with_tail budget (length others - length tail) first tail) h)
    ]

-- Where the setting is at least 1, `window_messages` gives no more messages than the setting allows,
-- however many system messages there are among them.
pub window_messages-bound :
    (max_messages : ℕ) (messages : List Fields)
    → 1 ≤ max_messages
    → length (window_messages max_messages messages) ≤ max_messages
unfolding window_messages
window_messages-bound max_messages messages h =
    elim (Bool-cases (leb (length messages) max_messages)) [
      | inl e ↦ rw e (leb→le (length messages) max_messages e)
      | inr e ↦ rw e (
          within-bound max_messages (filter is_system messages) (filter is_other messages)
            (first_user (filter is_other messages) 0) h)
    ]
