-- ===== src/McpBridge.antt =====
-- apps/mcp-bridge/src: the bridge that makes the desktop host available to an MCP client.
pub mod Action
pub mod Availability
mod Tests
