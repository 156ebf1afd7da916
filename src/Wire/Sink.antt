-- ===== src/Wire/Sink.antt =====
-- `WireSink` of host/bifrost-wire/src/codec.rs, the encoders' monad over it, and its two
-- implementations. An encoder changes the sink and may fail; what it wrote before an error stays
-- written, so the sink comes back beside the error.
pub mod Emits
pub mod Vec
pub mod Slice
use project_bifrost.Base.{
  ℕ, ◌+◌, Bool, true, false, String, ◌≡◌, ◌++◌, Bytes, Outcome, ok, err, panic, length, take, drop,
  ltb, if◌then◌else◌,
}
use project_bifrost.Wire.Error.{WireError, truncated}

-- The trait: `fn write(&mut self, bytes: &[u8]) -> Result<(), WireError>`.
pub record WireSink (S : Type 0) : Type 0 where
  pub write : Bytes → S → Outcome WireError (Unit {0}) × S

abbrev pub Encoder : Type 0 → Type 0 → Type 0
Encoder S A = S → Outcome WireError A × S

module _ {S : Type 0} where
  unfoldable pub done : Encoder S (Unit {0})
  done s = (ok tt, s)

  unfoldable pub reject : WireError → Encoder S (Unit {0})
  reject e s = (err e, s)

  -- `if test { return Err(e) }`
  unfoldable pub reject_if : Bool → WireError → Encoder S (Unit {0})
  reject_if true e s = (err e, s)
  reject_if false e s = (ok tt, s)

  abbrev pub then_encode :
      Outcome WireError (Unit {0}) × S → Encoder S (Unit {0}) → Outcome WireError (Unit {0}) × S
  then_encode (ok u, s) k = k s
  then_encode (err e, s) k = (err e, s)
  then_encode (panic, s) k = (panic, s)

  infixl 5 ◌>>◌
  -- `m?; k`
  unfoldable pub ◌>>◌ : Encoder S (Unit {0}) → Encoder S (Unit {0}) → Encoder S (Unit {0})
  ◌>>◌ m k s = then_encode (m s) k
