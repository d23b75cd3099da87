-- ===== src/Executor/Blocks.antt =====
-- engine/src/api/services/tool_executor.py: the content blocks that `execute` gives back, and what it
-- reads of a tool's result.
use cloudops_agent.Prelude.{
  String, Bool, true, false, Option, none, some, is_some, List, [], ◌∷◌, map, ◌==◌, if◌then◌else◌,
}
use cloudops_agent.Text.{is_empty, join}
use cloudops_agent.Json.{
  Value, null, bool, str, arr, obj, Items, nil, cons, Fields, done, field, of_list, items,
}
use cloudops_agent.Json.Access.{get, lookup, insert, fields_of, or_else, truthy}
use cloudops_agent.Json.Print.{text, json_indented}
use cloudops_agent.Mutation.Operation.{MutationOperation, execution_value, verification_value}
use cloudops_agent.Executor.Metadata.{items_of, string_of}
use cloudops_agent.Executor.Admit.{text_block}

abbrev pub str_or_null : Option String → Value
str_or_null none = null
str_or_null (some s) = str s

abbrev add_title : Option String → Fields → Fields
add_title none block = block
add_title (some title) block = if is_empty title then block else insert "title" (str title) block

abbrev add_display : Option (List Value) → Fields → Fields
add_display none block = block
add_display (some blocks) block = insert "display_result" (arr (of_list blocks)) block

-- `_mutation_meta_block`
unfoldable pub mutation_meta_block :
    MutationOperation → Bool → Option String → Option (List Value) → Value
mutation_meta_block op requires_verification title display = obj (
    add_display display (
      add_title title (
        field "type" (str "skyflo.mutation") (
          field "operation_id" (str op.id) (
            field "call_id" (str_or_null op.call_id) (
              field "tool" (str op.tool_name) (
                field "execution_status" (str (execution_value op.execution_status)) (
                  field "verification_status" (str (verification_value op.verification_status))
                    (field "requires_verification" (bool requires_verification) done)))))))))

-- `_reliability_dict`
abbrev first_item : Value → Value
first_item (arr nil) = obj done
first_item (arr (cons v xs)) = v
first_item v = v

unfoldable pub reliability_dict : Fields → Fields
reliability_dict result = fields_of (first_item (or_else (get "reliability" result) (obj done)))

abbrev pub ambiguous : Fields → Fields
ambiguous reliability =
    insert "external_execution_started" (bool true)
      (insert "ambiguous_outcome" (bool true) reliability)

-- isinstance(result, dict) and result.get("isError", False)
unfoldable pub had_error : Value → Bool
had_error (obj result) = truthy (get "isError" result)
had_error _ = false

-- block.get("text", "") of a block of type "text"
abbrev text_of_block : Value → Option String
text_of_block (obj block) = elim (get "type" block) [
  | str s ↦
      if s == "text"
      then some (elim (string_of (get "text" block)) [ none ↦ "" | some s' ↦ s' ])
      else none
  | _ ↦ none
]
text_of_block _ = none

unfoldable pub text_parts : Items → List String
text_parts nil = []
text_parts (cons v xs) =
    let rest = text_parts xs in elim (text_of_block v) [ none ↦ rest | some s ↦ s ∷ rest ]

abbrev joined : List String → String
joined [] = "Tool execution failed"
joined (p ∷ ps) = join "\n" (p ∷ ps)

unfoldable pub error_message : Value → String
unfolding text_parts join
error_message (obj result) = joined (text_parts (items_of (get "content" result)))
error_message _ = "Tool execution failed"

-- One item of a result that is a list.
abbrev block_of_item : Value → Value
block_of_item (obj d) = if is_some (lookup "type" d) then obj d else text_block (text (obj d))
block_of_item v = text_block (text v)

abbrev blocks_of_actual : Value → List Value
blocks_of_actual (str s) = text_block s ∷ []
blocks_of_actual (obj d) = text_block (json_indented (obj d)) ∷ []
blocks_of_actual (arr xs) = map block_of_item (items xs)
blocks_of_actual v = text_block (text v) ∷ []

abbrev blocks_of_result : Option Value → Fields → List Value
blocks_of_result (some actual) result = blocks_of_actual actual
blocks_of_result none result = text_block (json_indented (obj result)) ∷ []

unfoldable pub content_blocks : Value → List Value
unfolding text json_indented
content_blocks (obj result) = elim (lookup "content" result) [
  | some content ↦ items (items_of content)
  | none ↦ blocks_of_result (lookup "result" result) result
]
content_blocks v = text_block (text v) ∷ []
