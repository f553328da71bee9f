-- ===== src/Edge.antt =====
-- The crate crates/mcp-usage-edge: the sidecar in front of the metering layer.
pub mod Admission
pub mod Timestamp
pub mod Replay
pub mod Payment
pub mod ControlPlane
pub mod Transport
