-- ===== src/Wire/FieldReloc/Encode.antt =====
-- The encoder, over any sink.
use project_bifrost.Base.{
  ◌||◌, List, [], ◌∷◌, Bytes, length, ltb, is_empty, le_bytes, as_u32, as_u8, ◌||◌, Bool,
}
use project_bifrost.Wire.Error.{truncated}
use project_bifrost.Wire.Sink.{WireSink, Encoder, done, reject_if, ◌>>◌}
use project_bifrost.Wire.FieldReloc.{FieldRelocInput, field_reloc_name_max}

abbrev pub bad_name : Bytes → Bool
bad_name name = is_empty name || ltb field_reloc_name_max (length name)

module _ {S : Type 0} (sink : WireSink S) where
  open sink use {write}

  unfoldable pub encode_one_field_reloc : FieldRelocInput → Encoder S (Unit {0})
  encode_one_field_reloc r = do
    reject_if (bad_name r.struct_name)
        (truncated field_reloc_name_max (length r.struct_name) "field-reloc-struct-name-len")
    reject_if (bad_name r.field_name)
        (truncated field_reloc_name_max (length r.field_name) "field-reloc-field-name-len")
    write (le_bytes 4 r.insn_idx)
    write (r.access_kind ∷ [])
    write (r.byte_off_in_insn ∷ [])
    write (as_u8 (length r.struct_name) ∷ [])
    write (as_u8 (length r.field_name) ∷ [])
    write r.struct_name
    write r.field_name

  unfoldable pub encode_each_field_reloc : List FieldRelocInput → Encoder S (Unit {0})
  encode_each_field_reloc [] = done
  encode_each_field_reloc (r ∷ rs) = do encode_one_field_reloc r; encode_each_field_reloc rs

  unfoldable pub encode_field_relocs : List FieldRelocInput → Encoder S (Unit {0})
  encode_field_relocs relocs = do
    write (le_bytes 4 (as_u32 (length relocs)))
    encode_each_field_reloc relocs
