-- ===== src/Client.antt =====
-- The client's configuration, the builder and the documented call budget (src/client.rs).
mod Retry
mod Config
mod Build
pub mod Checks
pub mod Laws
unfoldable pub use Retry.*
unfoldable pub use Config.*
unfoldable pub use Build.*
