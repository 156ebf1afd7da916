-- ===== src/Wire/FieldReloc/RoundTrip.antt =====
-- What the encoder writes, and that the decoder reads it back.
use project_bifrost.Base.{
  ap, sym, append-nil, length-le_bytes, ℕ, ◌≤◌, ◌<◌, ◌≡◌, refl, arith, [], ◌∷◌, ◌++◌, List, map,
  Bytes, IsByte, IsU32, length, le_bytes, as_u8, as_u32, chunks, All, sizes, ok, false, ◌+◌,
}
use project_bifrost.Wire.Decoder.Reads.{
  Reads, Reads-need, Reads-bind, Reads-last, Reads-uint, Reads-byte, Reads-take, Reads-cast,
}
use project_bifrost.Wire.Sink.Vec.{vec_sink, vec_laws}
use project_bifrost.Wire.Sink.{WireSink}
use project_bifrost.Wire.Sink.Emits.{
  SinkLaws, Emits, Emits-write, Emits-check, Emits-seq, Emits-done,
}
use project_bifrost.Wire.Iter.{Iter, drain}
use project_bifrost.Wire.Iter.Laws.{fresh, drain-written}
use project_bifrost.Wire.FieldReloc.{FieldRelocView, FieldRelocInput}
use project_bifrost.Wire.FieldReloc.Decode.{
  decode_one_field_reloc, decode_field_relocs, decode_count, iter_over,
}
use project_bifrost.Wire.FieldReloc.Encode.{
  encode_one_field_reloc, encode_each_field_reloc, encode_field_relocs, bad_name,
}

-- The bytes of one record, and of a table.
unfoldable pub field_reloc_bytes : FieldRelocInput → Bytes
field_reloc_bytes r =
    le_bytes 4 r.insn_idx
    ++ ((r.access_kind ∷ [])
        ++ ((r.byte_off_in_insn ∷ [])
            ++ ((as_u8 (length r.struct_name) ∷ [])
                ++ ((as_u8 (length r.field_name) ∷ []) ++ (r.struct_name ++ r.field_name)))))

unfoldable pub field_relocs_bytes : List FieldRelocInput → Bytes
field_relocs_bytes rs = le_bytes 4 (as_u32 (length rs)) ++ chunks field_reloc_bytes rs

abbrev pub reloc_view : FieldRelocInput → FieldRelocView
reloc_view r = record {
  insn_idx = r.insn_idx;
  access_kind = r.access_kind;
  byte_off_in_insn = r.byte_off_in_insn;
  struct_name = r.struct_name;
  field_name = r.field_name;
}

-- The ranges of the Rust types, and the encoder's limits on the names.
pub record IsEncodable (r : FieldRelocInput) : Type 0 where
  pub idx : IsU32 r.insn_idx
  pub access : IsByte r.access_kind
  pub byte_off : IsByte r.byte_off_in_insn
  pub struct_some : 1 ≤ length r.struct_name
  pub struct_fits : length r.struct_name ≤ 255
  pub field_some : 1 ≤ length r.field_name
  pub field_fits : length r.field_name ≤ 255

good_name : (name : Bytes) → 1 ≤ length name → length name ≤ 255 → bad_name name ≡ false
good_name name h h' = ground arith

module _ {S : Type 0} {sink : WireSink S} (laws : SinkLaws sink) where
  Emits-one :
      (r : FieldRelocInput)
      → IsEncodable r
      → Emits laws (encode_one_field_reloc sink r) (field_reloc_bytes r)
  unfolding encode_one_field_reloc field_reloc_bytes
  Emits-one r h =
      Emits-seq laws (Emits-check laws _ (good_name r.struct_name h.struct_some h.struct_fits)) (
        Emits-seq laws (Emits-check laws _ (good_name r.field_name h.field_some h.field_fits)) (
          Emits-seq laws (Emits-write laws _) (
            Emits-seq laws (Emits-write laws _) (
              Emits-seq laws (Emits-write laws _) (
                Emits-seq laws (Emits-write laws _) (
                  Emits-seq laws (Emits-write laws _)
                    (Emits-seq laws (Emits-write laws _) (Emits-write laws _))))))))

  Emits-each :
      (rs : List FieldRelocInput)
      → All IsEncodable rs
      → Emits laws (encode_each_field_reloc sink rs) (chunks field_reloc_bytes rs)
  unfolding encode_each_field_reloc
  Emits-each [] h = Emits-done laws
  Emits-each (r ∷ rs) (h, hs) = Emits-seq laws (Emits-one r h) (Emits-each rs hs)

  pub Emits-field_relocs :
      (rs : List FieldRelocInput)
      → All IsEncodable rs
      → Emits laws (encode_field_relocs sink rs) (field_relocs_bytes rs)
  unfolding encode_field_relocs field_relocs_bytes
  Emits-field_relocs rs h = Emits-seq laws (Emits-write laws _) (Emits-each rs h)

pub Reads-field_reloc :
    (r : FieldRelocInput)
    → IsEncodable r
    → Reads decode_one_field_reloc (field_reloc_bytes r) (reloc_view r)
unfolding decode_one_field_reloc field_reloc_bytes
Reads-field_reloc r h = Reads-need 7 _ (omega (sizes, h.struct_some)) (
    Reads-bind _ r.insn_idx (Reads-uint 4 _ h.idx) (
      Reads-bind _ r.access_kind (Reads-byte _ _ refl h.access) (
        Reads-bind _ r.byte_off_in_insn (Reads-byte _ _ refl h.byte_off) (
          Reads-bind _ (length r.struct_name) (Reads-byte _ _ (omega arith) (omega arith)) (
            Reads-bind _ (length r.field_name) (Reads-byte _ _ (omega arith) (omega arith)) (
              Reads-need _ _ (omega sizes) (
                Reads-bind _ r.struct_name (Reads-take _ _ refl)
                  (Reads-last _ (Reads-take _ _ refl)))))))))

Reads-count : (n : ℕ) → IsU32 n → Reads decode_count (le_bytes 4 (as_u32 n)) n
unfolding decode_count
Reads-count n h = Reads-need 4 _ (omega sizes) (Reads-cast 4 _ _ (omega arith) (omega arith))

pub decode_field_relocs-table :
    (rs : List FieldRelocInput)
    → IsU32 (length rs)
    → decode_field_relocs (field_relocs_bytes rs) ≡ ok (fresh (field_relocs_bytes rs) 4 (length rs))
unfolding decode_field_relocs field_relocs_bytes le_bytes
decode_field_relocs-table rs h =
    ap (iter_over (field_relocs_bytes rs))
      (Reads.at (Reads-count (length rs) h) [] (chunks field_reloc_bytes rs))

-- A loop over the table of encodable relocations yields each of them and stops at the table's end.
pub drain-table :
    (rs : List FieldRelocInput) (fuel : ℕ)
    → All IsEncodable rs
    → length rs < fuel
    → drain fuel decode_one_field_reloc (fresh (field_relocs_bytes rs) 4 (length rs)) ≡ (
      map (λ r. ok (reloc_view r)) rs,
      fresh (field_relocs_bytes rs) (4 + length (chunks field_reloc_bytes rs)) 0,
    )
drain-table rs fuel hs hf =
    drain-written decode_one_field_reloc field_reloc_bytes reloc_view Reads-field_reloc rs fuel
      (field_relocs_bytes rs) (le_bytes 4 (as_u32 (length rs))) [] 4 hs hf
      (unfold field_relocs_bytes in rw append-nil) (sym (length-le_bytes 4 (as_u32 (length rs))))

-- A table of encodable relocations, written by `encode_field_relocs` into a `Vec`,
-- is read back record by record.
pub decode-encode_field_relocs :
    (rs : List FieldRelocInput) (fuel : ℕ)
    → IsU32 (length rs)
    → All IsEncodable rs
    → length rs < fuel
    → (bytes : Bytes) × (it : Iter) × (encode_field_relocs vec_sink rs [] ≡ (ok tt, bytes))
      × (decode_field_relocs bytes ≡ ok it)
      × ((drain fuel decode_one_field_reloc it).0 ≡ map (λ r. ok (reloc_view r)) rs)
      × ((drain fuel decode_one_field_reloc it).1.remaining ≡ 0)
decode-encode_field_relocs rs fuel h hs hf = (
  field_relocs_bytes rs,
  fresh (field_relocs_bytes rs) 4 (length rs),
  (Emits-field_relocs vec_laws rs hs).at [] tt,
  decode_field_relocs-table rs h,
  rw (drain-table rs fuel hs hf),
  rw (drain-table rs fuel hs hf),
)
