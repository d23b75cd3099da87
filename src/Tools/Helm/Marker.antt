-- ===== src/Tools/Helm/Marker.antt =====
-- mcp/tools/helm.py and engine/src/api/services/mutation_verifier.py: the description that the tools give
-- to a release, and the marker that `_verify_helm` looks for.
use Prim.Native.String.{begins, find}
use Prim.Native.String.find as find_clauses
use cloudops_agent.Prelude.{
  ℕ, String, Bool, true, Option, some, ◌≡◌, refl, ap, ◌∙◌, arith, List, [], ◌∷◌, ◌++◌ as append,
}
use cloudops_agent.Text.{split, push_head, contains}
use cloudops_agent.Json.{ℤ}
use cloudops_agent.Verifier.Helm.{release_marker}
use cloudops_agent.Tools.Helm.{
  command_parts, with_operation, helm_install, helm_install_with_values, helm_upgrade,
  helm_rollback,
}
use cloudops_agent.Tools.Helm.Parts.{
  IsWord, has_space, command_parts-append, command_parts-word, append-IsWord,
}

-- The command lines of the tools that carry an operation's identifier.
pub data Carries (id : String) : String → Type 0 where
  installing :
      (release_name chart : String) (namespace : Option String)
      (create_namespace wait : Option Bool)
      → Carries id (helm_install release_name chart namespace create_namespace wait (some id))
  installing_values :
      (values_file release_name chart : String) (namespace : Option String)
      (create_namespace wait : Option Bool)
      → Carries id (
          helm_install_with_values values_file release_name chart namespace create_namespace wait
            (some id))
  upgrading :
      (release_name chart : String) (namespace : Option String) (install wait : Option Bool)
      → Carries id (helm_upgrade release_name chart namespace install wait (some id))
  rolling_back :
      (release_name : String) (revision : ℤ) (namespace : Option String) (wait : Option Bool)
      → Carries id (helm_rollback release_name revision namespace wait (some id))

begins_refl : (s : String) (y n : ℕ) → begins s s y n ≡ y
begins_refl String.[] y n = refl
begins_refl (String.◌∷◌ c s) y n = ground (arith, begins_refl s y n)

find_refl : (s : String) → find s s ≡ 0
find_refl String.[] = λ i. find_clauses.nil String.[] i
find_refl (String.◌∷◌ c s) =
    (λ i. find_clauses.cons c s (String.◌∷◌ c s) i) ∙ begins_refl (String.◌∷◌ c s) 0 _

contains_refl : (s : String) → contains s s ≡ true
contains_refl s = rw (find_refl s) (ground arith)

-- The last two arguments of a command.
abbrev pub EndsWith : String → String → String → Type 0
EndsWith flag value cmd =
    (front : List String) × (command_parts cmd ≡ append front (flag ∷ value ∷ []))

marker_IsWord : IsWord "skyflo-operation:"
unfolding has_space
marker_IsWord = (refl, refl)

description_parts : command_parts "--description" ≡ "--description" ∷ []
unfolding command_parts split push_head
description_parts = refl

with_operation-parts :
    (cmd id : String)
    → IsWord id
    → EndsWith "--description" (release_marker id) (with_operation cmd (some id))
unfolding with_operation
with_operation-parts cmd id (nonempty, no_space) =
    let marker_word = append-IsWord "skyflo-operation:" id marker_IsWord no_space in
    (
      command_parts cmd,
      rw nonempty (
          command_parts-append cmd _
          ∙ ap (append (command_parts cmd)) (
              command_parts-append "--description" (release_marker id)
              ∙ rw (command_parts-word (release_marker id) marker_word, description_parts) refl)),
    )

-- A release that one of the tools changed for an operation gets the operation's own marker as its
-- description, whatever the other arguments are, where the operation's identifier has no space: the
-- last two arguments of the command are `--description` and a marker, which passes the test of
-- `_verify_helm`.
pub Carries-marker :
    (id cmd : String)
    → IsWord id
    → Carries id cmd
    → (marker : String) × EndsWith "--description" marker cmd
      × (contains marker (release_marker id) ≡ true)
unfolding helm_install helm_install_with_values helm_upgrade helm_rollback
Carries-marker id _ word (installing r c n cn w) =
    (release_marker id, with_operation-parts _ id word, contains_refl (release_marker id))
Carries-marker id _ word (installing_values f r c n cn w) =
    (release_marker id, with_operation-parts _ id word, contains_refl (release_marker id))
Carries-marker id _ word (upgrading r c n i w) =
    (release_marker id, with_operation-parts _ id word, contains_refl (release_marker id))
Carries-marker id _ word (rolling_back r v n w) =
    (release_marker id, with_operation-parts _ id word, contains_refl (release_marker id))
