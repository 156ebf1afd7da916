-- ===== src/Host.antt =====
-- What the host checks and merges, in host/bifrost/src.
pub mod Verify
mod Runs
pub mod Merge
pub mod Fanout
pub mod Emit
pub mod Branch
pub mod Reduce
