-- ===== src/Wire/SelfTrace.antt =====
-- host/bifrost-wire/src/codec_self_trace.rs: structured events with typed fields. An `i64` is its
-- bit pattern, and the slices are their bytes.
pub mod Decode
pub mod Encode
pub mod Fields
pub mod RoundTrip
pub mod Safety
use project_bifrost.Base.{ℕ, Bool, Bytes}

pub data SelfFieldValue : Type 0 where
  u64 : ℕ → SelfFieldValue
  i64 : ℕ → SelfFieldValue
  bytes : Bytes → SelfFieldValue
  bool : Bool → SelfFieldValue

pub record SelfFieldView : Type 0 where
  pub key : Bytes
  pub value : SelfFieldValue

pub record SelfEventView : Type 0 where
  pub level : ℕ
  pub subsystem : ℕ
  pub msg : Bytes
  pub fields_bytes : Bytes
  pub num_fields : ℕ

pub data SelfFieldOwned : Type 0 where
  u64 : ℕ → SelfFieldOwned
  i64 : ℕ → SelfFieldOwned
  bytes : Bytes → SelfFieldOwned
  bool : Bool → SelfFieldOwned

-- SELF_FIELD_*
abbrev pub self_field_u64 : ℕ
self_field_u64 = 0

abbrev pub self_field_i64 : ℕ
self_field_i64 = 1

abbrev pub self_field_bytes : ℕ
self_field_bytes = 2

abbrev pub self_field_bool : ℕ
self_field_bool = 3

-- `u16::MAX as usize`
abbrev pub u16_max : ℕ
u16_max = 65535
