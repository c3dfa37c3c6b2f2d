-- ===== src/Bridge.antt =====
-- The MCP bridge, nix/mcp-bridge.py: its command line, its server of sessions, and the copying
-- of bytes between a connection and the child.
pub mod Pump
pub mod Main
pub mod Server
pub mod Slots
pub mod Closing
mod Tests
