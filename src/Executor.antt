-- ===== src/Executor.antt =====
-- engine/src/api/services/tool_executor.py, tools_cache.py, approvals.py and the Jenkins integration:
-- which tools a model is offered, and what a call of one does.
pub mod Metadata
pub mod Jenkins
pub mod Toolsets
pub mod Admit
pub mod Blocks
pub mod Duplicates
pub mod Run
mod Tests
