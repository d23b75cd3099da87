-- ===== src/Tools.antt =====
-- mcp/tools: the tools of the MCP server that build command lines.
pub mod Helm
pub mod Argo
mod Tests
