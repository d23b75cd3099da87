-- ===== src/Memory.antt =====
-- engine/src/api/memory: who may read and write memory stores.
pub mod Policy
