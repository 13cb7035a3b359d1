-- ===== src/Api/Sms.antt =====
-- The SMS orders (src/api/sms.rs).
pub mod Check
pub mod Requests
pub mod Calls
