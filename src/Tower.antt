-- ===== src/Tower.antt =====
-- The crate crates/mcp-usage-tower: the metering layer around an MCP service.
pub mod Task
pub mod Deferred
pub mod Cache
pub mod Completion
pub mod Classify
pub mod Body
pub mod Terminal
pub mod Inspect
pub mod Tenants
pub mod Service
pub mod Credential
