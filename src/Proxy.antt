-- ===== src/Proxy.antt =====
-- src/lib.rs: how connections are admitted, routed and spliced.
pub mod Slots
pub mod Routes
mod Tests
pub mod Splice
pub mod Client
pub mod Duplex
pub mod Server
pub mod Admit
