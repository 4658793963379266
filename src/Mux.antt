-- ===== src/Mux.antt =====
-- src/mux.rs: one bridge link and the streams that ride it. What it uses of tokio is in `Runtime`, the
-- session and its parts in `Session`, the operations in `Ops` and the read loop in `Read`.
pub mod Emits
pub mod Sendable
pub mod Runtime
pub mod Session
pub mod Ops
pub mod Read
pub mod Runs
pub mod Stranded
pub mod Io
pub mod Send
pub mod Tests
