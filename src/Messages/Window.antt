-- ===== src/Messages/Window.antt =====
-- engine/src/api/utils/sanitization.py: `window_messages`, with the setting
-- LLM_CONTEXT_WINDOW_MESSAGES as the argument `max_messages`.
pub mod Bounds
use cloudops_agent.Prelude.{
  ℕ, zero, suc, ◌+◌, ◌-◌, String, Bool, true, false, not, ◌&&◌, Option, none, some, List, [], ◌∷◌,
  ◌++◌, length, take, filter, leb, ltb, nat_eq, ◌==◌, if◌then◌else◌,
}
use cloudops_agent.Json.{Value, str, Fields}
use cloudops_agent.Json.Access.{get}

abbrev pub is_text : String → Value → Bool
is_text t (str s) = s == t
is_text t _ = false

abbrev pub has_role : String → Fields → Bool
has_role role m = is_text role (get "role" m)

-- xs[n:]
abbrev pub drop {ℓ} : {A : Type ℓ} → ℕ → List A → List A
drop zero xs = xs
drop (suc n) [] = []
drop (suc n) (x ∷ xs) = drop n xs

-- xs[-n:], which is the whole list where n is 0
unfoldable pub last_of {ℓ} : {A : Type ℓ} → ℕ → List A → List A
last_of n xs = if nat_eq n 0 then xs else drop (length xs - n) xs

-- The first message of the user with its index.
unfoldable pub first_user : List Fields → ℕ → Option (Fields × ℕ)
first_user [] i = none
first_user (m ∷ ms) i =
    let rest = first_user ms (i + 1) in if has_role "user" m then some (m, i) else rest

unfoldable pub drop_leading_orphan_tools : List Fields → List Fields
drop_leading_orphan_tools [] = []
drop_leading_orphan_tools (m ∷ ms) =
    let rest = drop_leading_orphan_tools ms in if has_role "tool" m then rest else m ∷ ms

abbrev pub is_system : Fields → Bool
is_system = has_role "system"

abbrev pub is_other : Fields → Bool
is_other m = not (is_system m)

-- How many places the first message of the user takes.
abbrev pub places : Option (Fields × ℕ) → ℕ
places none = 0
places (some first) = 1

-- The last messages with the first one of the user before them, cut to the budget; where a tool's
-- message comes first after it, the answers that have lost their question go. The test for that
-- (`_has_orphaned_tool_messages`) is the first test of the loop that drops them.
abbrev pub with_first : ℕ → Fields → List Fields → List Fields
with_first budget first tail =
    let cut = last_of budget (first ∷ take (budget - 1) tail) in
    take 1 cut ++ drop_leading_orphan_tools (drop 1 cut)

abbrev pub with_tail : ℕ → ℕ → Option (Fields × ℕ) → List Fields → List Fields
with_tail budget start none tail = drop_leading_orphan_tools tail
with_tail budget start (some (first, i)) tail =
    if ltb i start then with_first budget first tail else drop_leading_orphan_tools tail

abbrev pub within : ℕ → List Fields → List Fields → Option (Fields × ℕ) → List Fields
within max_messages systems others first =
    let reserved = length systems + places first in
    if leb max_messages reserved
    then last_of max_messages (systems ++ others)
    else (let budget = max_messages - reserved in
        let tail = last_of budget others in
        last_of max_messages (systems ++ with_tail budget (length others - length tail) first tail))

unfoldable pub window_messages : ℕ → List Fields → List Fields
unfolding last_of first_user drop_leading_orphan_tools
window_messages max_messages messages =
    if leb (length messages) max_messages
    then messages
    else (let others = filter is_other messages in
        within max_messages (filter is_system messages) others (first_user others 0))
