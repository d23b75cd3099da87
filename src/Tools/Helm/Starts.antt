-- ===== src/Tools/Helm/Starts.antt =====
-- mcp/tools/helm.py: the first argument of a command line, which no later part of the line changes.
use Prim.Native.String.{◌++◌}
use cloudops_agent.Prelude.{
  String, Bool, true, false, Option, none, some, ◌≡◌, refl, ◌∙◌, List, ◌∷◌, ◌++◌ as append, inl,
  inr, Bool-cases,
}
use cloudops_agent.Text.{is_empty}
use cloudops_agent.Json.{ℤ, num}
use cloudops_agent.Json.Access.{truthy}
use cloudops_agent.Tools.Helm.{command_parts, with_value, with_switch, with_operation, with_number}
use cloudops_agent.Tools.Helm.Parts.{command_parts-append}

-- The first argument of a command line.
abbrev pub Starts : String → String → Type 0
Starts verb cmd = (rest : List String) × (command_parts cmd ≡ verb ∷ rest)

module _ (verb : String) where
  pub Starts-append : (cmd rest : String) → Starts verb cmd → Starts verb (cmd ++ " " ++ rest)
  Starts-append cmd rest (parts, e) =
      (append parts (command_parts rest), command_parts-append cmd rest ∙ rw e refl)

  pub Starts-with_value :
      (cmd flag : String) (value : Option String)
      → Starts verb cmd
      → Starts verb (with_value cmd flag value)
  unfolding with_value
  Starts-with_value cmd flag none h = h
  Starts-with_value cmd flag (some value) h = elim (Bool-cases (is_empty value)) [
    | inl e ↦ rw e h
    | inr e ↦ rw e (Starts-append cmd _ h)
  ]

  pub Starts-with_switch :
      (cmd flag : String) (on : Option Bool)
      → Starts verb cmd
      → Starts verb (with_switch cmd flag on)
  unfolding with_switch
  Starts-with_switch cmd flag none h = h
  Starts-with_switch cmd flag (some false) h = h
  Starts-with_switch cmd flag (some true) h = Starts-append cmd flag h

  pub Starts-with_operation :
      (cmd : String) (operation_id : Option String)
      → Starts verb cmd
      → Starts verb (with_operation cmd operation_id)
  unfolding with_operation
  Starts-with_operation cmd none h = h
  Starts-with_operation cmd (some id) h = elim (Bool-cases (is_empty id)) [
    | inl e ↦ rw e h
    | inr e ↦ rw e (Starts-append cmd _ h)
  ]

  pub Starts-with_number :
      (cmd flag : String) (number : Option ℤ)
      → Starts verb cmd
      → Starts verb (with_number cmd flag number)
  unfolding with_number
  Starts-with_number cmd flag none h = h
  Starts-with_number cmd flag (some n) h = elim (Bool-cases (truthy (num n))) [
    | inl e ↦ rw e (Starts-append cmd _ h)
    | inr e ↦ rw e h
  ]
