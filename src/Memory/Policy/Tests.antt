-- ===== src/Memory/Policy/Tests.antt =====
-- The laws of the access policy at concrete stores.
use cloudops_agent.Prelude.{
  String, true, false, none, some, ◌≡◌, refl, ◌==◌, one_of, some_inj, sym, ◌∙◌, false≢true, ap,
}
use cloudops_agent.Memory.Policy.{user, user_preference, MemoryStore, resolve_read, resolve_write}
use cloudops_agent.Memory.Policy.Laws.{resolve_write_iff, foreign_store-closed}

abbrev preferences : MemoryStore
preferences = record {
  slug = "user_memory";
  scope_type = user;
  owner_user_id = some "u1";
  archived_at = none;
}

preferences_written : (resolve_write (some "u1") preferences (some user_preference)).allowed ≡ true
unfolding resolve_write one_of
preferences_written = refl

resolve_write_iff_example :
    (resolve_write (some "u1") preferences (some user_preference)).allowed ≡ true
unfolding one_of
resolve_write_iff_example =
    (resolve_write_iff (some "u1") preferences (some user_preference)).1 (refl, refl, (refl, refl))

other_user : (id : String) → some "u2" ≡ some id → ¬ "u1" ≡ id
other_user id e same = false≢true (ap (λ s. "u1" == s) (some_inj e ∙ sym same))

foreign_store-closed_example :
    ((resolve_read (some "u2") preferences).allowed ≡ false)
    × ((resolve_write (some "u2") preferences (some user_preference)).allowed ≡ false)
foreign_store-closed_example =
    foreign_store-closed (some "u2") "u1" preferences (some user_preference) refl refl other_user
