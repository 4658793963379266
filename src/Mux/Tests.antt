-- ===== src/Mux/Tests.antt =====
-- src/mux.rs at concrete inputs, over a runtime made of plain counters and lists.
pub mod Machine
mod Witnesses
pub mod Streams
