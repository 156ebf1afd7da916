-- ===== src/Lower.antt =====
-- crates/bifrost-dtrace-lower/src: from a DOF blob to calls of a guest's adapter.
pub mod Error
pub mod Dof
pub mod Agg
pub mod Action
pub mod Adapter
pub mod Ecb
pub mod Resolve
pub mod Session
pub mod Runs
