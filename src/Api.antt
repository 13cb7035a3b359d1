-- ===== src/Api.antt =====
-- The typed API (src/api).
pub mod Fields
pub mod Call
pub mod Sms
pub mod Rental
pub mod Preorder
pub mod Esim
pub mod Catalog
pub mod Voucher
pub mod Business
pub mod Pricing
pub mod Carrier
pub mod Keyless
pub mod Calls
pub mod Passing
