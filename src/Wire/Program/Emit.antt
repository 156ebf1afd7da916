-- ===== src/Wire/Program/Emit.antt =====
-- The bytes of a program, and that `push_program` writes exactly these into any sink with room.
use project_bifrost.Base.{
  ℕ, ◌≤◌, ◌/◌, ◌%◌, ◌≡◌, sym, subst, arith, false, ◌⊎◌, inl, inr, Bool-cases, List, [], ◌∷◌, ◌++◌,
  append_assoc, Bytes, length, is_empty, le_bytes, as_u32, as_u8, chunks, All, IsU32, IsU64,
  if◌then◌else◌,
}
use project_bifrost.Wire.Sink.{WireSink, Encoder, done, ◌>>◌}
use project_bifrost.Wire.Sink.Emits.{
  SinkLaws, Emits, Emits-write, Emits-check, Emits-seq, Emits-done,
}
use project_bifrost.Wire.FieldReloc.Encode.{encode_field_relocs}
use project_bifrost.Wire.FieldReloc.RoundTrip
use project_bifrost.Wire.FieldReloc.RoundTrip.{field_relocs_bytes, Emits-field_relocs}
use project_bifrost.Wire.Program.{
  TrailerSpec, MapSpec, ProgramSpec, no_trailer, path, symbol, usdt, profile_timer,
}
use project_bifrost.Wire.Program.Encode.{
  name32, program_flags, out_of_range, write_sized, encode_trailer, encode_map, encode_maps,
  encode_kfunc_reloc, encode_kfunc_relocs, push_program,
}

-- The length of a name or a text, as four bytes.
abbrev pub size_bytes : Bytes → Bytes
size_bytes b = le_bytes 4 (as_u32 (length b))

unfoldable pub trailer_bytes : TrailerSpec → Bytes
trailer_bytes no_trailer = []
trailer_bytes (path file offset) = size_bytes file ++ (file ++ le_bytes 8 offset)
trailer_bytes (symbol bn sym) = size_bytes bn ++ (bn ++ (size_bytes sym ++ sym))
trailer_bytes (usdt bn prov pr) =
    size_bytes bn ++ (bn ++ (size_bytes prov ++ (prov ++ (size_bytes pr ++ pr))))
trailer_bytes (profile_timer period_ns) = le_bytes 8 period_ns

unfoldable pub map_bytes : MapSpec → Bytes
map_bytes m =
    le_bytes 4 m.map_type
    ++ (le_bytes 4 m.key_size
        ++ (le_bytes 4 m.value_size
            ++ (le_bytes 4 m.max_entries ++ (le_bytes 4 m.fake_fd ++ name32 m.name))))

unfoldable pub kfunc_bytes : ℕ × Bytes → Bytes
kfunc_bytes (insn_idx, name) = le_bytes 4 insn_idx ++ ((as_u8 (length name) ∷ []) ++ name)

unfoldable pub kfunc_table : List (ℕ × Bytes) → Bytes
kfunc_table rs = le_bytes 4 (as_u32 (length rs)) ++ chunks kfunc_bytes rs

unfoldable pub field_table : ProgramSpec → Bytes
field_table p = if is_empty p.field_relocs then [] else field_relocs_bytes p.field_relocs

unfoldable pub program_bytes : ProgramSpec → Bytes
program_bytes p =
    name32 p.target_name
    ++ (le_bytes 4 (program_flags p)
        ++ (trailer_bytes p.trailer
            ++ (size_bytes p.schema_bytes
                ++ (p.schema_bytes
                    ++ (le_bytes 4 (as_u32 (length p.maps))
                        ++ (chunks map_bytes p.maps
                            ++ (le_bytes 4 (as_u32 (length p.insns / 8))
                                ++ (p.insns ++ (kfunc_table p.kfunc_relocs ++ field_table p)))))))))

abbrev pub IsName : ℕ → Bytes → Type 0
IsName limit name = (1 ≤ length name) × (length name ≤ limit)

-- The probe type and the trailer that goes with it, within the limits of the format.
abbrev pub TrailerFits : ℕ → TrailerSpec → Type 0
TrailerFits ty no_trailer = (ty ≤ 1) ⊎ ((6 ≤ ty) × (ty ≤ 8))
TrailerFits ty (path file offset) = ((ty ≡ 2) ⊎ (ty ≡ 3)) × (length file ≤ 256) × IsU64 offset
TrailerFits ty (symbol bn sym) = ((ty ≡ 4) ⊎ (ty ≡ 5)) × IsName 64 bn × IsName 256 sym
TrailerFits ty (usdt bn prov pr) = (ty ≡ 9) × IsName 64 bn × IsName 64 prov × IsName 256 pr
TrailerFits ty (profile_timer period_ns) = (ty ≡ 10) × IsU64 period_ns

abbrev pub KfuncFits : ℕ × Bytes → Type 0
KfuncFits (insn_idx, name) = IsU32 insn_idx × IsName 255 name

-- What the caller of `push_program` keeps to: the trailer goes with the probe type, the code is
-- whole instructions, names are within their limits, and counts are `u32`s.
pub record IsEncodable (p : ProgramSpec) : Type 0 where
  pub trailer : TrailerFits p.probe_type p.trailer
  pub schema : IsU32 (length p.schema_bytes)
  pub maps : IsU32 (length p.maps)
  pub whole : length p.insns % 8 ≡ 0
  pub insns : IsU32 (length p.insns / 8)
  pub kfunc_count : IsU32 (length p.kfunc_relocs)
  pub kfuncs : All KfuncFits p.kfunc_relocs
  pub field_count : IsU32 (length p.field_relocs)
  pub fields : All RoundTrip.IsEncodable p.field_relocs

in_range : (limit : ℕ) (name : Bytes) → IsName limit name → out_of_range limit name ≡ false
in_range limit name h = ground arith

module _ {S : Type 0} {sink : WireSink S} (laws : SinkLaws sink) where
  Emits-sized :
      {k : Encoder S (Unit {0})} (b : Bytes) {c : Bytes}
      → Emits laws k c
      → Emits laws (write_sized sink b >> k) (size_bytes b ++ (b ++ c))
  unfolding write_sized
  Emits-sized {k} b {c} h =
      subst (λ (t : Bytes). Emits laws (write_sized sink b >> k) t)
        (append_assoc (size_bytes b) b c)
        (Emits-seq laws (Emits-seq laws (Emits-write laws _) (Emits-write laws b)) h)

  Emits-sized_last : (b : Bytes) → Emits laws (write_sized sink b) (size_bytes b ++ b)
  unfolding write_sized
  Emits-sized_last b = Emits-seq laws (Emits-write laws _) (Emits-write laws b)

  Emits-trailer :
      (ty : ℕ) (t : TrailerSpec)
      → TrailerFits ty t
      → Emits laws (encode_trailer sink t) (trailer_bytes t)
  unfolding encode_trailer trailer_bytes
  Emits-trailer ty no_trailer h = Emits-done laws
  Emits-trailer ty (path file offset) (_, h, _) =
      Emits-seq laws (Emits-check laws _ (ground arith)) (Emits-sized file (Emits-write laws _))
  Emits-trailer ty (symbol bn sym) (_, h, h') =
      Emits-seq laws (Emits-check laws _ (in_range 64 bn h)) (
        Emits-seq laws (Emits-check laws _ (in_range 256 sym h'))
          (Emits-sized bn (Emits-sized_last sym)))
  Emits-trailer ty (usdt bn prov pr) (_, h, h', h'') =
      Emits-seq laws (Emits-check laws _ (in_range 64 bn h)) (
        Emits-seq laws (Emits-check laws _ (in_range 64 prov h')) (
          Emits-seq laws (Emits-check laws _ (in_range 256 pr h''))
            (Emits-sized bn (Emits-sized prov (Emits-sized_last pr)))))
  Emits-trailer ty (profile_timer period_ns) h = Emits-write laws _

  Emits-map : (m : MapSpec) → Emits laws (encode_map sink m) (map_bytes m)
  unfolding encode_map map_bytes
  Emits-map m = Emits-seq laws (Emits-write laws _) (
      Emits-seq laws (Emits-write laws _) (
        Emits-seq laws (Emits-write laws _) (
          Emits-seq laws (Emits-write laws _)
            (Emits-seq laws (Emits-write laws _) (Emits-write laws _)))))

  Emits-maps : (ms : List MapSpec) → Emits laws (encode_maps sink ms) (chunks map_bytes ms)
  unfolding encode_maps
  Emits-maps [] = Emits-done laws
  Emits-maps (m ∷ ms) = Emits-seq laws (Emits-map m) (Emits-maps ms)

  Emits-kfuncs :
      (rs : List (ℕ × Bytes))
      → All KfuncFits rs
      → Emits laws (encode_kfunc_relocs sink rs) (chunks kfunc_bytes rs)
  unfolding encode_kfunc_relocs encode_kfunc_reloc kfunc_bytes
  Emits-kfuncs [] h = Emits-done laws
  Emits-kfuncs ((i, name) ∷ rs) ((_, h), hs) =
      Emits-seq laws
        (Emits-seq laws (Emits-check laws _ (in_range 255 name h)) (
          Emits-seq laws (Emits-write laws _)
            (Emits-seq laws (Emits-write laws _) (Emits-write laws _))))
        (Emits-kfuncs rs hs)

  Emits-fields :
      (p : ProgramSpec)
      → IsEncodable p
      → Emits laws
          (if is_empty p.field_relocs then done else encode_field_relocs sink p.field_relocs)
          (field_table p)
  unfolding field_table
  Emits-fields p h = elim (Bool-cases (is_empty p.field_relocs)) [
    | inl none ↦ rw none (Emits-done laws)
    | inr some ↦ rw some (Emits-field_relocs laws p.field_relocs h.fields)
  ]

  -- The chunk may be regrouped.
  Emits-regroup :
      {m : Encoder S (Unit {0})} (a b c : Bytes)
      → Emits laws m ((a ++ b) ++ c)
      → Emits laws m (a ++ (b ++ c))
  Emits-regroup {m} a b c h = subst (λ (t : Bytes). Emits laws m t) (append_assoc a b c) h

  Emits-ungroup :
      {m : Encoder S (Unit {0})} (a b c : Bytes)
      → Emits laws m (a ++ (b ++ c))
      → Emits laws m ((a ++ b) ++ c)
  Emits-ungroup {m} a b c h = subst (λ (t : Bytes). Emits laws m t) (sym (append_assoc a b c)) h

  Emits-tables :
      (p : ProgramSpec)
      → IsEncodable p
      → Emits laws
          (sink.write (le_bytes 4 (as_u32 (length p.kfunc_relocs)))
            >> (encode_kfunc_relocs sink p.kfunc_relocs
                >> (if is_empty p.field_relocs
                    then done
                    else encode_field_relocs sink p.field_relocs)))
          (kfunc_table p.kfunc_relocs ++ field_table p)
  unfolding kfunc_table
  Emits-tables p h =
      Emits-ungroup (le_bytes 4 (as_u32 (length p.kfunc_relocs)))
        (chunks kfunc_bytes p.kfunc_relocs) (field_table p)
        (Emits-seq laws (Emits-write laws _)
          (Emits-seq laws (Emits-kfuncs p.kfunc_relocs h.kfuncs) (Emits-fields p h)))

  pub Emits-push_program :
      (p : ProgramSpec) → IsEncodable p → Emits laws (push_program sink p) (program_bytes p)
  unfolding push_program program_bytes
  Emits-push_program p h = Emits-regroup (name32 p.target_name) (le_bytes 4 (program_flags p)) _ (
      Emits-seq laws (Emits-write laws _) (
        Emits-seq laws (Emits-trailer p.probe_type p.trailer h.trailer) (
          Emits-sized p.schema_bytes (
            Emits-seq laws (Emits-write laws _) (
              Emits-seq laws (Emits-maps p.maps) (
                Emits-seq laws (Emits-write laws _)
                  (Emits-seq laws (Emits-write laws _) (Emits-tables p h))))))))
