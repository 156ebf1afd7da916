-- ===== src/Wire/Hello.antt =====
-- host/bifrost-wire/src/codec_hello.rs: OBSERVER_HELLO and OBSERVER_HELLO_ACK. Their extension fields
-- have the encoding of self-trace fields: `encode_one_field_owned` is `encode_field` of SelfTrace, with
-- the two labels that its `match at` chooses.
pub mod RoundTrip
pub mod Runs
use project_bifrost.Base.{
  ℕ, Bool, false, not, List, [], ◌∷◌, Bytes, length, ltb, ◌==◌, le_bytes, as_u16, if◌then◌else◌,
}
use project_bifrost.Wire.Error.{truncated}
use project_bifrost.Wire.Decoder
use project_bifrost.Wire.Decoder.{Decoder, pure, ◌>>=◌, need, take_uint, take_rest}
use project_bifrost.Wire.Sink.{WireSink, Encoder, reject_if, ◌>>◌}
use project_bifrost.Wire.Iter.{Iter}
use project_bifrost.Wire.SelfTrace.{SelfFieldOwned, u16_max}
use project_bifrost.Wire.SelfTrace.Encode.{encode_fields}

pub record HelloView : Type 0 where
  pub wire_major : ℕ
  pub wire_minor : ℕ
  pub feature_bits : ℕ
  pub fields_bytes : Bytes
  pub num_fields : ℕ

pub record HelloAckView : Type 0 where
  pub accepted : Bool
  pub reject_reason : ℕ
  pub wire_major : ℕ
  pub wire_minor : ℕ
  pub feature_bits : ℕ
  pub fields_bytes : Bytes
  pub num_fields : ℕ

-- `view.fields()`
abbrev pub hello_fields : HelloView → Iter
hello_fields view = record {
  bytes = view.fields_bytes;
  cursor = 0;
  remaining = view.num_fields;
  failed = false;
}

abbrev pub hello_ack_fields : HelloAckView → Iter
hello_ack_fields view = record {
  bytes = view.fields_bytes;
  cursor = 0;
  remaining = view.num_fields;
  failed = false;
}

unfoldable pub decode_hello : Decoder HelloView
decode_hello = Decoder.◌>>◌ (need 18 "hello-header") (
    take_uint 4 >>= λ wire_major. take_uint 4 >>= λ wire_minor. take_uint 8 >>= λ feature_bits.
    take_uint 2 >>= λ num_fields. take_rest >>= λ fields_bytes. pure (record {
      wire_major = wire_major;
      wire_minor = wire_minor;
      feature_bits = feature_bits;
      fields_bytes = fields_bytes;
      num_fields = num_fields;
    }))

unfoldable pub decode_hello_ack : Decoder HelloAckView
decode_hello_ack = Decoder.◌>>◌ (need 20 "hello-ack-header") (
    take_uint 1 >>= λ accepted. take_uint 1 >>= λ reject_reason. take_uint 4 >>= λ wire_major.
    take_uint 4 >>= λ wire_minor. take_uint 8 >>= λ feature_bits. take_uint 2 >>= λ num_fields.
    take_rest >>= λ fields_bytes. pure (record {
      accepted = not (accepted == 0);
      reject_reason = reject_reason;
      wire_major = wire_major;
      wire_minor = wire_minor;
      feature_bits = feature_bits;
      fields_bytes = fields_bytes;
      num_fields = num_fields;
    }))

module _ {S : Type 0} (sink : WireSink S) where
  open sink use {write}

  unfoldable pub encode_hello : ℕ → ℕ → ℕ → List (Bytes × SelfFieldOwned) → Encoder S (Unit {0})
  encode_hello wire_major wire_minor feature_bits fields = do
    reject_if (ltb u16_max (length fields)) (truncated u16_max (length fields) "hello-num-fields")
    write (le_bytes 4 wire_major)
    write (le_bytes 4 wire_minor)
    write (le_bytes 8 feature_bits)
    write (le_bytes 2 (as_u16 (length fields)))
    encode_fields sink "hello-field-key-len" "hello-field-bytes-len" fields

  unfoldable pub encode_hello_ack :
      Bool → ℕ → ℕ → ℕ → ℕ → List (Bytes × SelfFieldOwned) → Encoder S (Unit {0})
  encode_hello_ack accepted reject_reason wire_major wire_minor feature_bits fields = do
    reject_if (ltb u16_max (length fields))
        (truncated u16_max (length fields) "hello-ack-num-fields")
    write ((if accepted then 1 else 0) ∷ [])
    write (reject_reason ∷ [])
    write (le_bytes 4 wire_major)
    write (le_bytes 4 wire_minor)
    write (le_bytes 8 feature_bits)
    write (le_bytes 2 (as_u16 (length fields)))
    encode_fields sink "hello-ack-field-key-len" "hello-ack-field-bytes-len" fields
