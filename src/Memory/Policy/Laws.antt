-- ===== src/Memory/Policy/Laws.antt =====
-- engine/src/api/memory/policy.py: who reads and who writes, stated without the code's order of tests.
use cloudops_agent.Prelude.{
  String, true, false, Option, none, some, ◌≡◌, refl, ap, ◌∙◌, ◌↔◌, arith, eq_iff, one_of,
}
use cloudops_agent.Memory.Policy.{
  MemoryScopeType, workspace, user, conversation, read_write, MemoryDocumentType, user_preference,
  MemoryStore, resolve_read, resolve_write, workspace_read_only_slugs, is_foreign, write_in_scope,
}

-- No owner is recorded, or the owner is the user.
abbrev pub Owns : Option String → String → Type 0
Owns none user_id = Unit
Owns (some owner) user_id = owner ≡ user_id

abbrev pub MayWrite :
    Option String → Option MemoryDocumentType → MemoryStore → MemoryScopeType → Type 0
MayWrite none document_type store scope = ⊥
MayWrite (some user_id) document_type store workspace = ⊥
MayWrite (some user_id) document_type store conversation = Unit
MayWrite (some user_id) document_type store user =
    Owns store.owner_user_id user_id × (document_type ≡ some user_preference)

owns_lem :
    (owner : Option String) (user_id : String)
    → is_foreign owner user_id ≡ false ↔ Owns owner user_id
owns_lem none user_id = ((λ h. tt), λ h. refl)
owns_lem (some owner) user_id = ground (arith, eq_iff owner user_id)

write_in_scope_iff :
    (user_id : Option String) (store : MemoryStore) (document_type : Option MemoryDocumentType)
    (scope : MemoryScopeType)
    → (write_in_scope user_id store document_type scope).allowed ≡ true
      ↔ MayWrite user_id document_type store scope
write_in_scope_iff none store document_type workspace = ground arith
write_in_scope_iff none store document_type user = ground arith
write_in_scope_iff none store document_type conversation = ground arith
write_in_scope_iff (some user_id) store document_type workspace = ground arith
write_in_scope_iff (some user_id) store document_type conversation = ground arith
write_in_scope_iff (some user_id) store none user = ground arith
write_in_scope_iff (some user_id) store (some document_type) user =
    ground (arith, owns_lem store.owner_user_id user_id)

-- The agent may write to a store exactly where the store is not archived, is none of the two read-only
-- workspace stores by its slug, and is a conversation's store, for any user, or a user's store of
-- the user or of nobody, for a document of type USER_PREFERENCE. No workspace store is written, and
-- nothing without a user.
pub resolve_write_iff :
    (user_id : Option String) (store : MemoryStore) (document_type : Option MemoryDocumentType)
    → (resolve_write user_id store document_type).allowed ≡ true
      ↔ (store.archived_at ≡ none)
        × (one_of workspace_read_only_slugs store.slug ≡ false)
        × MayWrite user_id document_type store store.scope_type
unfolding resolve_write
resolve_write_iff user_id store document_type =
    ground (arith, write_in_scope_iff user_id store document_type store.scope_type)

-- Whatever the agent may write it may also read, with read and write access in both decisions.
pub resolve_write-resolve_read :
    (user_id : Option String) (store : MemoryStore) (document_type : Option MemoryDocumentType)
    → (resolve_write user_id store document_type).allowed ≡ true
    → ((resolve_read user_id store).allowed ≡ true)
      × ((resolve_read user_id store).effective_access ≡ read_write)
      × ((resolve_write user_id store document_type).effective_access ≡ read_write)
unfolding resolve_write resolve_read
resolve_write-resolve_read user_id store document_type h = ground arith

-- A user's store that has another owner is closed: no read and no write of it is allowed, for any
-- user and any document.
pub foreign_store-closed :
    (user_id : Option String) (owner : String) (store : MemoryStore)
    (document_type : Option MemoryDocumentType)
    → store.scope_type ≡ user
    → store.owner_user_id ≡ some owner
    → ((id : String) → user_id ≡ some id → ¬ owner ≡ id)
    → ((resolve_read user_id store).allowed ≡ false)
      × ((resolve_write user_id store document_type).allowed ≡ false)
unfolding resolve_read resolve_write
foreign_store-closed none owner store document_type scope owned other = ground arith
foreign_store-closed (some id) owner store document_type scope owned other =
    let differs = other id refl in
    let foreign : is_foreign store.owner_user_id id ≡ true =
      ap (λ o. is_foreign o id) owned ∙ ground (arith, eq_iff owner id) in
    ground arith
