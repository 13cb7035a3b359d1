-- ===== src/Poll.antt =====
-- The polling workflows (src/poll.rs).
pub mod Delay
pub mod Orders
pub mod Observe
pub mod Cancel
pub mod Wait
pub mod Options
pub mod Watcher
pub mod Watch
