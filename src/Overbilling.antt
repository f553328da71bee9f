-- ===== src/Overbilling.antt =====
-- crates/mcp-overbilling/src: the meters that the benchmark compares.
pub mod Meters
