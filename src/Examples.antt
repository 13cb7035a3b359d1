-- ===== src/Examples.antt =====
-- Concrete runs of the transport, the builder and the workflows (src/transport.rs, src/client.rs,
-- src/poll.rs), with concrete functions in place of the crates.
mod Crates
mod Calls
mod Values
mod Polling
mod Waiting
mod Watching
mod Building
mod Requests
