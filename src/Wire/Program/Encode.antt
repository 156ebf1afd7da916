-- ===== src/Wire/Program/Encode.antt =====
-- `WrapperBuilder::push_program`, over any sink.
use Prim.Native.Nat.{bit_or}
use project_bifrost.Base.{
  ℕ, ◌-◌, ◌/◌, ◌||◌, min, Bool, List, [], ◌∷◌, ◌++◌, Bytes, length, take, replicate, ltb, is_empty,
  le_bytes, as_u32, as_u8, if◌then◌else◌,
}
use project_bifrost.Wire.Error.{
  path_too_long, basename_out_of_range, symbol_out_of_range, provider_out_of_range,
  probe_out_of_range, kfunc_name_out_of_range,
}
use project_bifrost.Wire.Sink.{WireSink, Encoder, done, reject_if, ◌>>◌}
use project_bifrost.Wire.FieldReloc.Encode.{encode_field_relocs}
use project_bifrost.Wire.Program.{
  TrailerSpec, MapSpec, ProgramSpec, no_trailer, path, symbol, usdt, profile_timer,
  program_flag_field_relocs_present,
}

-- A name cut to 31 bytes and padded with NULs to 32.
unfoldable pub name32 : Bytes → Bytes
name32 name = let n = min (length name) 31 in take n name ++ replicate (32 - n) 0

-- The flags of `BifrostProgramHeader::new`, and the bit that `push_program` adds.
unfoldable pub program_flags : ProgramSpec → ℕ
program_flags p =
    if is_empty p.field_relocs
    then p.probe_type
    else bit_or p.probe_type program_flag_field_relocs_present

abbrev pub out_of_range : ℕ → Bytes → Bool
out_of_range limit name = is_empty name || ltb limit (length name)

module _ {S : Type 0} (sink : WireSink S) where
  open sink use {write}

  -- A length as a `u32`, then the bytes.
  unfoldable pub write_sized : Bytes → Encoder S (Unit {0})
  write_sized bytes = do write (le_bytes 4 (as_u32 (length bytes))); write bytes

  unfoldable pub encode_trailer : TrailerSpec → Encoder S (Unit {0})
  unfolding write_sized
  encode_trailer no_trailer = done
  encode_trailer (path file offset) = do
    reject_if (ltb 256 (length file)) (path_too_long (as_u32 (length file)))
    write_sized file
    write (le_bytes 8 offset)
  encode_trailer (symbol bn sym) = do
    reject_if (out_of_range 64 bn) (basename_out_of_range (as_u32 (length bn)))
    reject_if (out_of_range 256 sym) (symbol_out_of_range (as_u32 (length sym)))
    write_sized bn
    write_sized sym
  encode_trailer (usdt bn prov pr) = do
    reject_if (out_of_range 64 bn) (basename_out_of_range (as_u32 (length bn)))
    reject_if (out_of_range 64 prov) (provider_out_of_range (as_u32 (length prov)))
    reject_if (out_of_range 256 pr) (probe_out_of_range (as_u32 (length pr)))
    write_sized bn
    write_sized prov
    write_sized pr
  encode_trailer (profile_timer period_ns) = write (le_bytes 8 period_ns)

  unfoldable pub encode_map : MapSpec → Encoder S (Unit {0})
  encode_map m = do
    write (le_bytes 4 m.map_type)
    write (le_bytes 4 m.key_size)
    write (le_bytes 4 m.value_size)
    write (le_bytes 4 m.max_entries)
    write (le_bytes 4 m.fake_fd)
    write (name32 m.name)

  unfoldable pub encode_maps : List MapSpec → Encoder S (Unit {0})
  encode_maps [] = done
  encode_maps (m ∷ ms) = do encode_map m; encode_maps ms

  unfoldable pub encode_kfunc_reloc : ℕ × Bytes → Encoder S (Unit {0})
  encode_kfunc_reloc (insn_idx, name) = do
    reject_if (out_of_range 255 name) (kfunc_name_out_of_range (length name))
    write (le_bytes 4 insn_idx)
    write (as_u8 (length name) ∷ [])
    write name

  unfoldable pub encode_kfunc_relocs : List (ℕ × Bytes) → Encoder S (Unit {0})
  encode_kfunc_relocs [] = done
  encode_kfunc_relocs (r ∷ rs) = do encode_kfunc_reloc r; encode_kfunc_relocs rs

  unfoldable pub push_program : ProgramSpec → Encoder S (Unit {0})
  unfolding write_sized
  push_program p = do
    write (name32 p.target_name ++ le_bytes 4 (program_flags p))
    encode_trailer p.trailer
    write_sized p.schema_bytes
    write (le_bytes 4 (as_u32 (length p.maps)))
    encode_maps p.maps
    write (le_bytes 4 (as_u32 (length p.insns / 8)))
    write p.insns
    write (le_bytes 4 (as_u32 (length p.kfunc_relocs)))
    encode_kfunc_relocs p.kfunc_relocs
    if is_empty p.field_relocs then done else encode_field_relocs sink p.field_relocs
