-- ===== src/Journal/Table.antt =====
-- engine/src/api/services/mutation_journal.py: the methods over the table, whose rows stand in the order
-- in which the database returns them. A transaction that raises writes nothing.
mod Store
mod Preparation
mod Methods
unfoldable pub use Store.*
unfoldable pub use Preparation.*
unfoldable pub use Methods.*
