-- ===== src/Executor/Duplicates.antt =====
-- engine/src/api/services/tool_executor.py: the reply of `execute` for an operation that the journal
-- has already.
use cloudops_agent.Prelude.{
  String, Bool, true, false, not, ◌&&◌, Option, none, some, List, [], ◌∷◌, if◌then◌else◌,
}
use Prim.Native.String.{◌++◌ as join_text}
use cloudops_agent.Json.{Value}
use cloudops_agent.Mutation.Operation.{
  VerificationStatus, MutationOperation, pending, verifying, inconclusive, passed, needs_review,
  is_prepared, execution_value,
}
use cloudops_agent.Journal.Rows.{is_verifiable}
use cloudops_agent.Executor.Metadata.{metadata_of}
use cloudops_agent.Executor.Admit.{Call, text_block}
use cloudops_agent.Executor.Blocks.{mutation_meta_block}

abbrev pub title_of : Call → Option String
title_of c = elim c.metadata [ none ↦ some c.name | some tool ↦ (metadata_of tool).title ]

-- verification_status in {PENDING, VERIFYING, INCONCLUSIVE}
abbrev pub is_open : VerificationStatus → Bool
is_open pending = true
is_open verifying = true
is_open inconclusive = true
is_open _ = false

abbrev pub requires_verification : MutationOperation → Bool
requires_verification op = is_open op.verification_status && is_verifiable op.execution_status

abbrev suppression : Call → MutationOperation → Bool → String → List Value
suppression c op requires words =
    text_block words ∷ mutation_meta_block op requires (title_of c) none ∷ []

abbrev suppress_unverified : Call → MutationOperation → Option (List Value)
suppress_unverified c op =
    if is_verifiable op.execution_status
    then some (
        suppression c op (requires_verification op) (
          join_text
            "Duplicate mutation execution suppressed; the existing operation will be verified: "
            (join_text op.id ".")))
    else if not (is_prepared op.execution_status)
    then some (
        text_block (
          join_text "Duplicate mutation execution suppressed because operation " (
            join_text op.id
              (join_text " is " (join_text (execution_value op.execution_status) "."))))
        ∷ [])
    else none

-- The reply for an operation that was there before, `none` where it may still start.
unfoldable pub suppress : Call → MutationOperation → Option (List Value)
unfolding mutation_meta_block
suppress c op = elim op.verification_status [
  | passed ↦ some (
      suppression c op false (
        join_text "Duplicate execution suppressed. The existing operation is already verified: "
          (join_text op.id ".")))
  | needs_review ↦ some (
      suppression c op false (
        join_text
          "Duplicate mutation execution suppressed. The existing operation requires manual review: "
          (join_text op.id ".")))
  | _ ↦ suppress_unverified c op
]
