-- ===== src/Mutation.antt =====
-- engine/src/api/services/mutation_utils.py and engine/src/api/models/mutation.py: what the journal,
-- the policy and the verifier share.
pub mod Operation
pub mod Redact
pub mod Canonical
pub mod Manifest
mod Tests
