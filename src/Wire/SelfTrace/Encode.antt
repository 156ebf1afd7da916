-- ===== src/Wire/SelfTrace/Encode.antt =====
-- codec_self_trace.rs: encode_event.
use project_bifrost.Base.{
  ℕ, List, [], ◌∷◌, Bytes, String, length, ltb, le_bytes, as_u16, if◌then◌else◌,
}
use project_bifrost.Wire.Error.{truncated}
use project_bifrost.Wire.Sink.{WireSink, Encoder, done, reject_if, ◌>>◌}
use project_bifrost.Wire.SelfTrace.{
  SelfFieldOwned, self_field_u64, self_field_i64, self_field_bytes, self_field_bool, u16_max,
}

module _ {S : Type 0} (sink : WireSink S) where
  open sink use {write}

  -- The `match value`: a type byte, a `u16` length and the value. `bytes_at` labels the error.
  unfoldable pub encode_value : String → SelfFieldOwned → Encoder S (Unit {0})
  encode_value bytes_at (SelfFieldOwned.u64 v) = do
    write (self_field_u64 ∷ [])
    write (le_bytes 2 8)
    write (le_bytes 8 v)
  encode_value bytes_at (SelfFieldOwned.i64 v) = do
    write (self_field_i64 ∷ [])
    write (le_bytes 2 8)
    write (le_bytes 8 v)
  encode_value bytes_at (SelfFieldOwned.bytes b) = do
    reject_if (ltb u16_max (length b)) (truncated u16_max (length b) bytes_at)
    write (self_field_bytes ∷ [])
    write (le_bytes 2 (as_u16 (length b)))
    write b
  encode_value bytes_at (SelfFieldOwned.bool v) = do
    write (self_field_bool ∷ [])
    write (le_bytes 2 1)
    write ((if v then 1 else 0) ∷ [])

  unfoldable pub encode_field : String → String → Bytes × SelfFieldOwned → Encoder S (Unit {0})
  encode_field key_at bytes_at (key, value) = do
    reject_if (ltb u16_max (length key)) (truncated u16_max (length key) key_at)
    write (le_bytes 2 (as_u16 (length key)))
    write key
    encode_value bytes_at value

  unfoldable pub encode_fields :
      String → String → List (Bytes × SelfFieldOwned) → Encoder S (Unit {0})
  encode_fields key_at bytes_at [] = done
  encode_fields key_at bytes_at (f ∷ fs) = do
    encode_field key_at bytes_at f
    encode_fields key_at bytes_at fs

  unfoldable pub encode_event : ℕ → ℕ → Bytes → List (Bytes × SelfFieldOwned) → Encoder S (Unit {0})
  encode_event level subsystem msg fields = do
    reject_if (ltb u16_max (length msg)) (truncated u16_max (length msg) "self-event-msg-len")
    reject_if (ltb u16_max (length fields))
        (truncated u16_max (length fields) "self-event-num-fields")
    write (level ∷ [])
    write (subsystem ∷ [])
    write (le_bytes 2 (as_u16 (length fields)))
    write (le_bytes 2 (as_u16 (length msg)))
    write msg
    encode_fields "self-event-field-key-len" "self-event-field-bytes-len" fields
