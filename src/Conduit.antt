-- ===== src/Conduit.antt =====
-- The shared-memory control conduit between the host and a guest's monitor.
pub mod Memory
pub mod Ring
pub mod Layout
pub mod Records
mod Runs
