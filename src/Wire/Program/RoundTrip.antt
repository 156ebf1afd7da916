-- ===== src/Wire/Program/RoundTrip.antt =====
-- `decode_one_program` reads back what `push_program` wrote.
use Prim.Native.Nat.{bit_and, bit_or}
use project_bifrost.Base.{
  append_assoc, ℕ, zero, ◌<◌, ◌+◌, ◌-◌, ◌-◌, ◌*◌, ◌/◌, ◌^◌, ◌≡◌, refl, arith, inl, inr, List, [],
  ◌∷◌, ◌++◌, Bytes, length, is_empty, take, replicate, min, le_bytes, as_u8, chunks, All, sizes,
  length-append_bytes, length-le_bytes, length-take, length-replicate, Bool-cases, eq_below,
  all_below,
}
use project_bifrost.Wire.Decoder.Reads.{
  Reads, Reads-pure, Reads-need, Reads-bind, Reads-last, Reads-uint, Reads-byte, Reads-take,
  Reads-cast, Reads-skip, Reads-spanned,
}
use project_bifrost.Wire.FieldReloc.{FieldRelocInput}
use project_bifrost.Wire.FieldReloc.RoundTrip
use project_bifrost.Wire.FieldReloc.RoundTrip.{field_reloc_bytes, field_relocs_bytes}
use project_bifrost.Wire.Program.{TrailerSpec, MapSpec, ProgramSpec, ProgramView}
use project_bifrost.Wire.Program.Encode.{name32, program_flags}
use project_bifrost.Wire.Program.Decode.{
  walk_kfunc_relocs, kfunc_relocs_section, walk_field_relocs, field_relocs_section,
  decode_field_section, decode_one_program,
}
use project_bifrost.Wire.Program.Emit.{
  map_bytes, kfunc_bytes, kfunc_table, field_table, program_bytes, IsEncodable, TrailerFits,
  KfuncFits,
}
use project_bifrost.Wire.Program.Trailer.{trailer_view, Reads-trailer}

-- What a reader of the wrapper sees of `p`.
abbrev pub program_view : ProgramSpec → ProgramView
program_view p = record {
  target_name = name32 p.target_name;
  flags = program_flags p;
  probe_type = p.probe_type;
  trailer = trailer_view p.trailer;
  schema_bytes = p.schema_bytes;
  num_maps = length p.maps;
  maps_bytes = chunks map_bytes p.maps;
  num_insns = length p.insns / 8;
  insns = p.insns;
  kfunc_relocs_bytes = kfunc_table p.kfunc_relocs;
  field_relocs_bytes = field_table p;
}

length-name32 : (name : Bytes) → length (name32 name) ≡ 32
unfolding name32
length-name32 name = omega (
  sizes,
  length-take (min (length name) 31) name,
  length-replicate (32 - min (length name) 31) zero,
  length-append_bytes (take (min (length name) 31) name)
      (replicate (32 - min (length name) 31) zero),
)

length-map_bytes : (m : MapSpec) → length (map_bytes m) ≡ 52
unfolding map_bytes
length-map_bytes m = omega (sizes, length-name32 m.name)

length-maps : (ms : List MapSpec) → length (chunks map_bytes ms) ≡ length ms * 52
length-maps [] = refl
length-maps (m ∷ ms) = omega (sizes, length-map_bytes m, length-maps ms)

Reads-walk_kfunc :
    (rs : List (ℕ × Bytes))
    → All KfuncFits rs
    → Reads (walk_kfunc_relocs (length rs)) (chunks kfunc_bytes rs) tt
unfolding walk_kfunc_relocs kfunc_bytes
Reads-walk_kfunc [] h = Reads-pure tt
Reads-walk_kfunc ((i, name) ∷ rs) ((h, h'), hs) = rw (append_assoc (le_bytes 4 i)) (
    Reads-need 5 _ (omega sizes) (
      Reads-bind _ tt (Reads-skip _ 4 (length-le_bytes 4 i)) (
        Reads-bind _ {c = as_u8 (length name) ∷ []} (length name)
          (Reads-byte _ _ (omega arith) (omega arith))
          (Reads-need _ _ (omega (arith, length-append_bytes name (chunks kfunc_bytes rs)))
            (Reads-bind _ tt (Reads-skip name _ refl) (Reads-walk_kfunc rs hs))))))

Reads-kfunc_section :
    (rs : List (ℕ × Bytes))
    → length rs < 2 ^ 32
    → All KfuncFits rs
    → Reads kfunc_relocs_section (kfunc_table rs) tt
unfolding kfunc_relocs_section kfunc_table
Reads-kfunc_section rs h hs = Reads-need 4 _ (omega sizes) (
    Reads-bind _ (length rs) (Reads-cast 4 _ _ (omega arith) (omega arith))
      (Reads-walk_kfunc rs hs))

Reads-walk_field :
    (rs : List FieldRelocInput)
    → All RoundTrip.IsEncodable rs
    → Reads (walk_field_relocs (length rs)) (chunks field_reloc_bytes rs) tt
unfolding walk_field_relocs field_reloc_bytes
Reads-walk_field [] h = Reads-pure tt
Reads-walk_field (r ∷ rs) (h, hs) = rw (append_assoc (le_bytes 4 r.insn_idx)) (
    Reads-need 8 _ (omega sizes) (
      Reads-bind _ tt (Reads-skip _ 4 (length-le_bytes 4 r.insn_idx)) (
        Reads-bind _ {c = r.access_kind ∷ []} tt (Reads-skip _ 1 refl) (
          Reads-bind _ {c = r.byte_off_in_insn ∷ []} tt (Reads-skip _ 1 refl) (
            Reads-bind _ {c = as_u8 (length r.struct_name) ∷ []} (length r.struct_name)
              (Reads-byte _ _ (omega arith) (omega arith))
              (Reads-bind _ {c = as_u8 (length r.field_name) ∷ []} (length r.field_name)
                (Reads-byte _ _ (omega arith) (omega arith))
                (Reads-need _ _
                  (omega (
                    sizes,
                    length-append_bytes (r.struct_name ++ r.field_name)
                        (chunks field_reloc_bytes rs),
                  ))
                  (Reads-bind _ tt (Reads-skip (r.struct_name ++ r.field_name) _ (omega sizes))
                    (Reads-walk_field rs hs)))))))))

Reads-field_section :
    (rs : List FieldRelocInput)
    → length rs < 2 ^ 32
    → All RoundTrip.IsEncodable rs
    → Reads field_relocs_section (field_relocs_bytes rs) tt
unfolding field_relocs_section field_relocs_bytes
Reads-field_section rs h hs = Reads-need 4 _ (omega sizes) (
    Reads-bind _ (length rs) (Reads-cast 4 _ _ (omega arith) (omega arith))
      (Reads-walk_field rs hs))

-- The flag bits, checked for every probe type.
flag_type : (t : ℕ) → t < 256 → bit_and t 0xff ≡ t
unfolding all_below
flag_type = eq_below 256 _ _ refl

flag_type_set : (t : ℕ) → t < 256 → bit_and (bit_or t 0x100) 0xff ≡ t
unfolding all_below
flag_type_set = eq_below 256 _ _ refl

flag_clear : (t : ℕ) → t < 256 → bit_and t 0x100 ≡ 0
unfolding all_below
flag_clear = eq_below 256 _ _ refl

flag_set : (t : ℕ) → t < 256 → bit_and (bit_or t 0x100) 0x100 ≡ 0x100
unfolding all_below
flag_set = eq_below 256 _ _ refl

flag_sum : (t : ℕ) → t < 256 → bit_or t 0x100 ≡ t + 0x100
unfolding all_below
flag_sum = eq_below 256 _ _ refl

TrailerFits-byte : (ty : ℕ) (t : TrailerSpec) → TrailerFits ty t → ty < 256
TrailerFits-byte ty TrailerSpec.no_trailer h = ground arith
TrailerFits-byte ty (TrailerSpec.path file offset) (h, fits, wide) = ground arith
TrailerFits-byte ty (TrailerSpec.symbol bn sym) (h, hb, hs) = ground arith
TrailerFits-byte ty (TrailerSpec.usdt bn prov pr) (h, hb, hp, hq) = ground arith
TrailerFits-byte ty (TrailerSpec.profile_timer period_ns) (h, wide) = ground arith

module _ (p : ProgramSpec) (byte : p.probe_type < 256) where
  program_flags-lt : program_flags p < 2 ^ 32
  unfolding program_flags
  program_flags-lt = ground (arith, flag_sum p.probe_type byte)

  program_flags_type : bit_and (program_flags p) 0xff ≡ p.probe_type
  unfolding program_flags
  program_flags_type = elim (Bool-cases (is_empty p.field_relocs)) [
    | inl none ↦ rw none (flag_type p.probe_type byte)
    | inr some ↦ rw some (flag_type_set p.probe_type byte)
  ]

  Reads-field_table :
      length p.field_relocs < 2 ^ 32
      → All RoundTrip.IsEncodable p.field_relocs
      → Reads (decode_field_section (program_flags p)) (field_table p) (field_table p)
  unfolding program_flags decode_field_section field_table
  Reads-field_table h hs = elim (Bool-cases (is_empty p.field_relocs)) [
    | inl none ↦ rw (none, flag_clear p.probe_type byte) (Reads-pure [])
    | inr some ↦
        rw (some, flag_set p.probe_type byte)
          (Reads-spanned (Reads-field_section p.field_relocs h hs))
  ]

-- The bytes that `push_program` writes for an encodable program decode to its view, wherever they
-- stand, and the cursor ends just behind them.
pub Reads-program :
    (p : ProgramSpec) → IsEncodable p → Reads decode_one_program (program_bytes p) (program_view p)
unfolding decode_one_program program_bytes
Reads-program p h =
    let byte : p.probe_type < 256 = TrailerFits-byte p.probe_type p.trailer h.trailer in
    let ty : bit_and (program_flags p) 0xff ≡ p.probe_type = program_flags_type p byte in
    Reads-need 36 _ (omega (sizes, length-name32 p.target_name)) (
      Reads-bind _ (name32 p.target_name) (Reads-take _ 32 (length-name32 p.target_name)) (
        Reads-bind _ (program_flags p) (Reads-uint 4 _ (program_flags-lt p byte)) (
          rw ty (
            Reads-bind _ (trailer_view p.trailer) (Reads-trailer p.probe_type p.trailer h.trailer) (
              Reads-need 4 _ (omega sizes) (
                Reads-bind _ (length p.schema_bytes) (Reads-cast 4 _ _ (omega arith) (omega arith))
                  (Reads-need _ _ (omega sizes) (
                    Reads-bind _ p.schema_bytes (Reads-take _ _ refl) (
                      Reads-need 4 _ (omega sizes) (
                        Reads-bind _ (length p.maps) (Reads-cast 4 _ _ (omega arith) (omega arith))
                          (Reads-need _ _ (omega (sizes, length-maps p.maps)) (
                            Reads-bind _ (chunks map_bytes p.maps)
                              (Reads-take _ _ (length-maps p.maps))
                              (Reads-need 4 _ (omega sizes) (
                                Reads-bind _ (length p.insns / 8)
                                  (Reads-cast 4 _ _ (omega arith) (omega arith))
                                  (Reads-need _ _ (omega sizes) (
                                    Reads-bind _ p.insns (Reads-take _ _ (omega arith)) (
                                      Reads-bind _ (kfunc_table p.kfunc_relocs)
                                        (Reads-spanned (
                                          Reads-kfunc_section p.kfunc_relocs h.kfunc_count
                                            h.kfuncs))
                                        (Reads-last _ (
                                          Reads-field_table p byte h.field_count
                                            h.fields)))))))))))))))))))
