-- ===== src/Endpoint.antt =====
-- Endpoint descriptors and encoded requests (src/endpoint.rs).
mod Defs
mod Catalog
mod Sms
mod Rental
mod Account
mod Esim
mod Registry
pub use Defs.*
pub use Catalog.*
pub use Sms.*
pub use Rental.*
pub use Account.*
pub use Esim.*
pub use Registry.*
