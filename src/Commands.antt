-- ===== src/Commands.antt =====
-- mcp/utils/commands.py: subprocesses that belong to a workflow run.
pub mod Errors
pub mod Registry
pub mod Run
mod Tests
