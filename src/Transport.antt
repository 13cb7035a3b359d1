-- ===== src/Transport.antt =====
-- The transport pipeline (src/transport.rs).
pub mod Io
pub mod Rules
pub mod Rescue
pub mod Timed
pub mod Validate
pub mod Request
pub mod Failure
pub mod Header
pub mod Decode
pub mod Body
pub mod Admission
pub mod Attempt
pub mod Execute
