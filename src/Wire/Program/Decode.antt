-- ===== src/Wire/Program/Decode.antt =====
-- `decode_one_program`, section by section.
use Prim.Native.Nat.{bit_and}
use project_bifrost.Base.{ℕ, zero, suc, ◌+◌, ◌*◌, ◌||◌, [], Bytes, ltb, ◌==◌, if◌then◌else◌}
use project_bifrost.Wire.Error.{
  path_too_long, basename_out_of_range, symbol_out_of_range, provider_out_of_range,
  probe_out_of_range, bad_probe_type,
}
use project_bifrost.Wire.Decoder.{
  Decoder, pure, fail, ◌>>=◌, ◌>>◌, need, take_bytes, skip, take_uint, fail_if, spanned,
}
use project_bifrost.Wire.Program.{TrailerView, ProgramView, program_flag_field_relocs_present}

-- Probe types 2 and 3: u32 path_len, path, u64 file_offset.
unfoldable pub decode_path : Decoder TrailerView
decode_path = do
  need 4 "uprobe-trailer-pathlen"
  path_len ← take_uint 4
  fail_if (ltb 256 path_len) (path_too_long path_len)
  need (path_len + 8) "uprobe-trailer-path"
  path ← take_bytes path_len
  file_offset ← take_uint 8
  pure (TrailerView.path path file_offset)

-- Probe types 4 and 5: u32 bn_len, basename, u32 sym_len, symbol.
unfoldable pub decode_symbol : Decoder TrailerView
decode_symbol = do
  need 4 "sym-trailer-bnlen"
  bn_len ← take_uint 4
  fail_if (bn_len == 0 || ltb 64 bn_len) (basename_out_of_range bn_len)
  need (bn_len + 4) "sym-trailer-bn"
  basename ← take_bytes bn_len
  sym_len ← take_uint 4
  fail_if (sym_len == 0 || ltb 256 sym_len) (symbol_out_of_range sym_len)
  need sym_len "sym-trailer-sym"
  symbol ← take_bytes sym_len
  pure (TrailerView.symbol basename symbol)

-- Probe type 9: u32 bn_len, bn, u32 prov_len, prov, u32 probe_len, probe.
unfoldable pub decode_usdt : Decoder TrailerView
decode_usdt = do
  need 4 "usdt-trailer-bnlen"
  bn_len ← take_uint 4
  fail_if (bn_len == 0 || ltb 64 bn_len) (basename_out_of_range bn_len)
  need (bn_len + 4) "usdt-trailer-bn"
  basename ← take_bytes bn_len
  prov_len ← take_uint 4
  fail_if (prov_len == 0 || ltb 64 prov_len) (provider_out_of_range prov_len)
  need (prov_len + 4) "usdt-trailer-prov"
  provider ← take_bytes prov_len
  probe_len ← take_uint 4
  fail_if (probe_len == 0 || ltb 256 probe_len) (probe_out_of_range probe_len)
  need probe_len "usdt-trailer-probe"
  probe ← take_bytes probe_len
  pure (TrailerView.usdt basename provider probe)

-- Probe type 10: u64 period_ns.
unfoldable pub decode_profile_timer : Decoder TrailerView
decode_profile_timer = do
  need 8 "profile-timer-trailer-period"
  period_ns ← take_uint 8
  pure (TrailerView.profile_timer period_ns)

unfoldable pub decode_trailer : ℕ → Decoder TrailerView
decode_trailer ty =
    if ty == 2 || ty == 3
    then decode_path
    else if ty == 4 || ty == 5
    then decode_symbol
    else if ty == 9
    then decode_usdt
    else if ty == 10
    then decode_profile_timer
    else if ty == 0 || (ty == 1 || (ty == 6 || (ty == 7 || ty == 8)))
    then pure TrailerView.no_trailer
    else fail (bad_probe_type ty)

unfoldable pub walk_kfunc_relocs : ℕ → Decoder (Unit {0})
walk_kfunc_relocs zero = pure tt
walk_kfunc_relocs (suc n) = do
  need 5 "kfunc-reloc-header"
  skip 4
  name_len ← take_uint 1
  need name_len "kfunc-reloc-name"
  skip name_len
  walk_kfunc_relocs n

unfoldable pub kfunc_relocs_section : Decoder (Unit {0})
kfunc_relocs_section = do
  need 4 "num-kfunc-relocs"
  num_relocs ← take_uint 4
  walk_kfunc_relocs num_relocs

unfoldable pub walk_field_relocs : ℕ → Decoder (Unit {0})
walk_field_relocs zero = pure tt
walk_field_relocs (suc n) = do
  need 8 "field-reloc-record-header"
  skip 4
  skip 1
  skip 1
  struct_name_len ← take_uint 1
  field_name_len ← take_uint 1
  need (struct_name_len + field_name_len) "field-reloc-names"
  skip (struct_name_len + field_name_len)
  walk_field_relocs n

unfoldable pub field_relocs_section : Decoder (Unit {0})
field_relocs_section = do
  need 4 "num-field-relocs"
  num_field ← take_uint 4
  walk_field_relocs num_field

-- The section stands there only if the program's flags say so.
unfoldable pub decode_field_section : ℕ → Decoder Bytes
decode_field_section flags =
    if bit_and flags program_flag_field_relocs_present == 0
    then pure []
    else spanned field_relocs_section

unfoldable pub decode_one_program : Decoder ProgramView
decode_one_program = do
  need 36 "program-header"
  target_name ← take_bytes 32
  flags ← take_uint 4
  let probe_type = bit_and flags 0xff
  trailer ← decode_trailer probe_type
  need 4 "schema-len"
  schema_len ← take_uint 4
  need schema_len "schema-bytes"
  schema_bytes ← take_bytes schema_len
  need 4 "num-maps"
  num_maps ← take_uint 4
  need (num_maps * 52) "maps-bytes"
  maps_bytes ← take_bytes (num_maps * 52)
  need 4 "num-insns"
  num_insns ← take_uint 4
  need (num_insns * 8) "insns-bytes"
  insns ← take_bytes (num_insns * 8)
  kfunc_relocs_bytes ← spanned kfunc_relocs_section
  field_relocs_bytes ← decode_field_section flags
  pure (record {
    target_name = target_name;
    flags = flags;
    probe_type = probe_type;
    trailer = trailer;
    schema_bytes = schema_bytes;
    num_maps = num_maps;
    maps_bytes = maps_bytes;
    num_insns = num_insns;
    insns = insns;
    kfunc_relocs_bytes = kfunc_relocs_bytes;
    field_relocs_bytes = field_relocs_bytes;
  })
