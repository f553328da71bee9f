-- ===== src/Core.antt =====
-- The crate crates/mcp-usage-core: pure protocol classification, pricing and billing decisions.
pub mod Json
pub mod Method
pub mod Price
pub mod Peek
pub mod Charge
pub mod Limits
pub mod Version
pub mod Name
pub mod Legacy
