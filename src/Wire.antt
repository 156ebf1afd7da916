-- ===== src/Wire.antt =====
-- The crate host/bifrost-wire.
pub mod Error
pub mod Decoder
pub mod Sink
pub mod Iter
pub mod FieldReloc
pub mod Program
pub mod Wrapper
pub mod Profile
pub mod SelfTrace
pub mod LoadProg
pub mod Hello
pub mod Envelope
pub mod Runs
