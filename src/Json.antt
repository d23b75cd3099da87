-- ===== src/Json.antt =====
-- The values that JSON and YAML documents, tool arguments and journal columns are made of. A
-- `dict` keeps its keys in the order of insertion. Floats are left out.
pub mod Access
pub mod Print
use cloudops_agent.Prelude.{ℕ, String, Bool, List, [], ◌∷◌}

-- `negsuc n` is -(n + 1).
pub data ℤ : Type 0 where
  pos : ℕ → ℤ
  negsuc : ℕ → ℤ

mutual
  pub data Value : Type 0 where
    null : Value
    bool : Bool → Value
    num : ℤ → Value
    str : String → Value
    arr : Items → Value
    obj : Fields → Value

  pub data Items : Type 0 where
    nil : Items
    cons : Value → Items → Items

  pub data Fields : Type 0 where
    done : Fields
    field : String → Value → Fields → Fields

abbrev pub items : Items → List Value
items nil = []
items (cons v xs) = v ∷ items xs

abbrev pub of_list : List Value → Items
of_list [] = nil
of_list (v ∷ vs) = cons v (of_list vs)
