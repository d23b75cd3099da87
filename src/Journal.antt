-- ===== src/Journal.antt =====
-- engine/src/api/services/mutation_journal.py: the journal's transitions. `clock i` is what the i-th
-- call of `timezone.now()` in a method's text gives, the one of `save` (`auto_now`) included.
pub mod Rows
pub mod Table
pub mod Lookup
pub mod Prepare
pub mod Steps
pub mod Invariant
pub mod History
pub mod Stop
pub mod Converge
mod Tests
