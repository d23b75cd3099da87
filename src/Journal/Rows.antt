-- ===== src/Journal/Rows.antt =====
-- engine/src/api/services/mutation_journal.py: what each method does with one row.
mod Actions
mod Execution
mod Verification
mod Recovery
pub use Actions.*
unfoldable pub use Execution.*
unfoldable pub use Verification.*
unfoldable pub use Recovery.*
