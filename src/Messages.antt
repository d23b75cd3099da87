-- ===== src/Messages.antt =====
-- engine/src/api/utils/sanitization.py: what of a conversation is sent to the model. A message is a
-- dict.
pub mod Window
pub mod Pairs
mod Tests
