-- ===== src/Wire/SelfTrace/Decode.antt =====
-- codec_self_trace.rs: decode_event, decode_one_field and SelfEventView::fields.
use project_bifrost.Base.{ℕ, ◌+◌, not, Bytes, false, ◌==◌, from_le, if◌then◌else◌}
use project_bifrost.Wire.Error.{truncated}
use project_bifrost.Wire.Decoder.{
  Decoder, pure, fail, ◌>>=◌, ◌>>◌, need, take_bytes, take_uint, take_rest,
}
use project_bifrost.Wire.Iter.{Iter}
use project_bifrost.Wire.SelfTrace.{
  SelfFieldValue, SelfFieldView, SelfEventView, self_field_u64, self_field_i64, self_field_bytes,
  self_field_bool,
}

-- The `match value_type`. An unknown type is kept as bytes. A boolean is `value_slice[0] != 0` of a
-- slice that has been found to be one byte long.
unfoldable pub decode_value : ℕ → ℕ → Bytes → Decoder SelfFieldValue
decode_value value_type value_len value_slice =
    if value_type == self_field_u64
    then (if value_len == 8
        then pure (SelfFieldValue.u64 (from_le value_slice))
        else fail (truncated 8 value_len "self-field-u64-len"))
    else if value_type == self_field_i64
    then (if value_len == 8
        then pure (SelfFieldValue.i64 (from_le value_slice))
        else fail (truncated 8 value_len "self-field-i64-len"))
    else if value_type == self_field_bytes
    then pure (SelfFieldValue.bytes value_slice)
    else if value_type == self_field_bool
    then (if value_len == 1
        then pure (SelfFieldValue.bool (not (from_le value_slice == 0)))
        else fail (truncated 1 value_len "self-field-bool-len"))
    else pure (SelfFieldValue.bytes value_slice)

unfoldable pub decode_one_field : Decoder SelfFieldView
decode_one_field = do
  need 2 "self-field-key-len"
  key_len ← take_uint 2
  need (key_len + 3) "self-field-key"
  key ← take_bytes key_len
  value_type ← take_uint 1
  value_len ← take_uint 2
  need value_len "self-field-value"
  value_slice ← take_bytes value_len
  value ← decode_value value_type value_len value_slice
  pure (record { key = key; value = value })

unfoldable pub decode_event : Decoder SelfEventView
decode_event = do
  need 6 "self-event-header"
  level ← take_uint 1
  subsystem ← take_uint 1
  num_fields ← take_uint 2
  msg_len ← take_uint 2
  need msg_len "self-event-msg"
  msg ← take_bytes msg_len
  fields_bytes ← take_rest
  pure (record {
    level = level;
    subsystem = subsystem;
    msg = msg;
    fields_bytes = fields_bytes;
    num_fields = num_fields;
  })

-- `view.fields()`
abbrev pub fields : SelfEventView → Iter
fields view = record {
  bytes = view.fields_bytes;
  cursor = 0;
  remaining = view.num_fields;
  failed = false;
}
