-- ===== src/Wire/FieldReloc/Decode.antt =====
-- The decoder of one record, and the iterator's entry point.
use project_bifrost.Base.{ℕ, ◌+◌, false, Bytes, Outcome, ok, err, panic}
use project_bifrost.Wire.Error.{WireError}
use project_bifrost.Wire.Decoder.{Decoder, pure, ◌>>=◌, ◌>>◌, need, take_bytes, take_uint}
use project_bifrost.Wire.Iter.{Iter}
use project_bifrost.Wire.FieldReloc.{FieldRelocView}

-- What `decode_one_field_reloc` reads behind its first test. Both names are tested at once.
unfoldable pub field_reloc_body : Decoder FieldRelocView
field_reloc_body = do
  insn_idx ← take_uint 4
  access_kind ← take_uint 1
  byte_off_in_insn ← take_uint 1
  struct_name_len ← take_uint 1
  field_name_len ← take_uint 1
  need (struct_name_len + field_name_len) "field-reloc-names"
  struct_name ← take_bytes struct_name_len
  field_name ← take_bytes field_name_len
  pure (record {
    insn_idx = insn_idx;
    access_kind = access_kind;
    byte_off_in_insn = byte_off_in_insn;
    struct_name = struct_name;
    field_name = field_name;
  })

-- The first test asks for 7 bytes, and the fixed part of a record has 8.
unfoldable pub decode_one_field_reloc : Decoder FieldRelocView
unfolding field_reloc_body
decode_one_field_reloc = do need 7 "field-reloc-record-header"; field_reloc_body

-- The `u32` at the front of an input, with the cursor behind it.
unfoldable pub decode_count : Decoder ℕ
decode_count = do need 4 "field-relocs-count"; take_uint 4

abbrev pub iter_over : Bytes → Outcome WireError (ℕ × ℕ) → Outcome WireError Iter
iter_over bytes (ok (n, cursor)) =
    ok (record { bytes = bytes; cursor = cursor; remaining = n; failed = false })
iter_over bytes (err e) = err e
iter_over bytes panic = panic

unfoldable pub decode_field_relocs : Bytes → Outcome WireError Iter
unfolding decode_count
decode_field_relocs bytes = iter_over bytes (decode_count bytes 0)
