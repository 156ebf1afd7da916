-- ===== src/Wire/FieldReloc.antt =====
-- host/bifrost-wire/src/codec_field_reloc.rs: BTF field relocations, one table per program.
-- Names (`&str`) are their UTF-8 bytes.
pub mod Decode
pub mod Encode
pub mod RoundTrip
pub mod Safety
use project_bifrost.Base.{ℕ, Bytes}

pub record FieldRelocView : Type 0 where
  pub insn_idx : ℕ
  pub access_kind : ℕ
  pub byte_off_in_insn : ℕ
  pub struct_name : Bytes
  pub field_name : Bytes

pub record FieldRelocInput : Type 0 where
  pub insn_idx : ℕ
  pub access_kind : ℕ
  pub byte_off_in_insn : ℕ
  pub struct_name : Bytes
  pub field_name : Bytes

abbrev pub field_reloc_name_max : ℕ
field_reloc_name_max = 255
