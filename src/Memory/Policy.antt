-- ===== src/Memory/Policy.antt =====
-- engine/src/api/memory/policy.py: the access policy of memory stores, with the enumerations of
-- engine/src/api/models/memory.py. The scope of a store is one of the three, so the last `return` of
-- `resolve_read` and of `resolve_write` is never reached; `operation` is read by neither.
pub mod Laws
mod Tests
use Prim.Native.String.{◌++◌}
use cloudops_agent.Prelude.{
  ℕ, String, Bool, true, false, not, ◌||◌, Option, none, some, is_some, List, [], ◌∷◌, one_of, ◌==◌,
  if◌then◌else◌,
}

pub data MemoryScopeType : Type 0 where
  workspace : MemoryScopeType
  user : MemoryScopeType
  conversation : MemoryScopeType

pub data MemoryAccessMode : Type 0 where
  read_only : MemoryAccessMode
  read_write : MemoryAccessMode
  draft_write : MemoryAccessMode

pub data MemoryDocumentType : Type 0 where
  user_preference : MemoryDocumentType
  workspace_convention : MemoryDocumentType
  runbook : MemoryDocumentType
  incident_lesson : MemoryDocumentType
  service_context : MemoryDocumentType
  tool_usage_lesson : MemoryDocumentType
  verification_checklist : MemoryDocumentType
  conversation_note : MemoryDocumentType
  dream_summary : MemoryDocumentType

abbrev pub document_type_value : MemoryDocumentType → String
document_type_value user_preference = "user_preference"
document_type_value workspace_convention = "workspace_convention"
document_type_value runbook = "runbook"
document_type_value incident_lesson = "incident_lesson"
document_type_value service_context = "service_context"
document_type_value tool_usage_lesson = "tool_usage_lesson"
document_type_value verification_checklist = "verification_checklist"
document_type_value conversation_note = "conversation_note"
document_type_value dream_summary = "dream_summary"

-- The columns of a store that the policy reads.
pub record MemoryStore : Type 0 where
  pub slug : String
  pub scope_type : MemoryScopeType
  pub owner_user_id : Option String
  pub archived_at : Option ℕ

pub record MemoryPolicyDecision : Type 0 where
  pub allowed : Bool
  pub requires_review : Bool
  pub reason : String
  pub effective_access : MemoryAccessMode

abbrev pub decide : Bool → String → MemoryAccessMode → MemoryPolicyDecision
decide allowed reason access = record {
  allowed = allowed;
  requires_review = false;
  reason = reason;
  effective_access = access;
}

abbrev pub deny : String → MemoryPolicyDecision
deny reason = decide false reason read_only

-- store.owner_user_id is not None and store.owner_user_id != user_id
abbrev pub is_foreign : Option String → String → Bool
is_foreign none user_id = false
is_foreign (some owner) user_id = not (owner == user_id)

abbrev pub read_in_scope : Option String → MemoryStore → MemoryScopeType → MemoryPolicyDecision
read_in_scope none store workspace =
    if store.slug == "workspace_conventions"
    then decide true "Public workspace convention" read_only
    else deny "Unauthenticated access"
read_in_scope (some user_id) store workspace =
    decide true "Authenticated user can read workspace stores" read_only
read_in_scope none store user = deny "Unauthenticated cannot read user memory"
read_in_scope (some user_id) store user =
    if is_foreign store.owner_user_id user_id
    then deny "Cannot read another user's memory"
    else decide true "User owns this store" read_write
read_in_scope none store conversation = deny "Unauthenticated cannot access conversation memory"
read_in_scope (some user_id) store conversation =
    decide true "Authenticated user can read conversation memory" read_write

unfoldable pub resolve_read : Option String → MemoryStore → MemoryPolicyDecision
resolve_read user_id store =
    if is_some store.archived_at
    then deny "Store is archived"
    else read_in_scope user_id store store.scope_type

abbrev pub workspace_read_only_slugs : List String
workspace_read_only_slugs = "workspace_conventions" ∷ "workspace_runbooks" ∷ []

abbrev pub type_or_none : Option MemoryDocumentType → String
type_or_none none = "None"
type_or_none (some t) = document_type_value t

-- document_type is None or document_type != USER_PREFERENCE, negated
abbrev pub is_user_preference : Option MemoryDocumentType → Bool
is_user_preference (some user_preference) = true
is_user_preference _ = false

abbrev pub write_in_scope :
    Option String → MemoryStore → Option MemoryDocumentType → MemoryScopeType → MemoryPolicyDecision
write_in_scope user_id store document_type workspace =
    deny "Workspace stores require admin write access"
write_in_scope none store document_type conversation =
    deny "Unauthenticated cannot write conversation memory"
write_in_scope (some user_id) store document_type conversation =
    decide true "Agent can write conversation memory" read_write
write_in_scope none store document_type user = deny "Unauthenticated cannot write user memory"
write_in_scope (some user_id) store document_type user =
    if is_foreign store.owner_user_id user_id
    then deny "Cannot write to another user's memory store"
    else if not (is_user_preference document_type)
    then deny
        ("Agent can only write user_preference to user_memory; got " ++ type_or_none document_type)
    else decide true "Agent can write user preferences" read_write

unfoldable pub resolve_write :
    Option String → MemoryStore → Option MemoryDocumentType → MemoryPolicyDecision
resolve_write user_id store document_type =
    if is_some store.archived_at
    then deny "Store is archived"
    else if one_of workspace_read_only_slugs store.slug
    then deny (
        "Store '" ++ store.slug
        ++ "' is read-only. Use memory_propose_promotion to suggest changes.")
    else write_in_scope user_id store document_type store.scope_type

unfoldable pub resolve_admin_write : Bool → MemoryStore → MemoryPolicyDecision
resolve_admin_write is_admin store =
    if not is_admin
    then deny "Admin role required for direct store write"
    else decide true "Admin write permitted" read_write

unfoldable pub can_delete : Bool → MemoryPolicyDecision
can_delete is_admin =
    if is_admin
    then decide true "Admin can delete" read_write
    else deny "Only admins can delete memory documents"

unfoldable pub can_redact : Bool → MemoryPolicyDecision
can_redact is_admin =
    if is_admin
    then decide true "Admin can redact versions" read_write
    else deny "Only admins can redact memory versions"
