-- ===== src/Wire/Program.antt =====
-- One program of a BFR7 wrapper, from host/bifrost-wire/src/codec.rs: what the encoder takes
-- (`ProgramSpec`) and what the decoder gives (`ProgramView`). Strings (`&str`) are their UTF-8
-- bytes, and an `i32` is its bit pattern.
pub mod Decode
pub mod Encode
pub mod Emit
pub mod Trailer
pub mod RoundTrip
pub mod Sinks
pub mod Bounds
pub mod Stable
use project_bifrost.Base.{ℕ, List, Bytes}
use project_bifrost.Wire.FieldReloc.{FieldRelocInput}

pub data TrailerView : Type 0 where
  no_trailer : TrailerView
  -- path, file_offset
  path : Bytes → ℕ → TrailerView
  -- basename, symbol
  symbol : Bytes → Bytes → TrailerView
  -- basename, provider, probe
  usdt : Bytes → Bytes → Bytes → TrailerView
  -- period_ns
  profile_timer : ℕ → TrailerView

pub record ProgramView : Type 0 where
  pub target_name : Bytes
  pub flags : ℕ
  pub probe_type : ℕ
  pub trailer : TrailerView
  pub schema_bytes : Bytes
  pub num_maps : ℕ
  pub maps_bytes : Bytes
  pub num_insns : ℕ
  pub insns : Bytes
  pub kfunc_relocs_bytes : Bytes
  pub field_relocs_bytes : Bytes

pub data TrailerSpec : Type 0 where
  no_trailer : TrailerSpec
  path : Bytes → ℕ → TrailerSpec
  symbol : Bytes → Bytes → TrailerSpec
  usdt : Bytes → Bytes → Bytes → TrailerSpec
  profile_timer : ℕ → TrailerSpec

pub record MapSpec : Type 0 where
  pub map_type : ℕ
  pub key_size : ℕ
  pub value_size : ℕ
  pub max_entries : ℕ
  pub fake_fd : ℕ
  pub name : Bytes

pub record ProgramSpec : Type 0 where
  pub target_name : Bytes
  pub probe_type : ℕ
  pub trailer : TrailerSpec
  pub schema_bytes : Bytes
  pub maps : List MapSpec
  pub insns : Bytes
  -- (insn_idx, name)
  pub kfunc_relocs : List (ℕ × Bytes)
  pub field_relocs : List FieldRelocInput

-- `PROGRAM_FLAG_FIELD_RELOCS_PRESENT`
abbrev pub program_flag_field_relocs_present : ℕ
program_flag_field_relocs_present = 0x100
