-- ===== src/Export.antt =====
-- crates/mcp-usage-export: usage buffered on the request path and exported off it.
pub mod Buffer
pub mod Pipeline
pub mod MeterEvent
pub mod Billing
