-- ===== src/Wire/FieldReloc/Safety.antt =====
-- Where the decoder of one record panics.
use project_bifrost.Base.{
  ℕ, ◌+◌, ◌≤◌, ◌<◌, ◌≡◌, ◌≢◌, ◌↔◌, arith, Bytes, Outcome, ok, err, panic, length, lt→ltb, le→ltb,
}
use project_bifrost.Wire.Error.{WireError, truncated}
use project_bifrost.Wire.Decoder.{Decoder, ◌>>=◌, need, take_uint}
use project_bifrost.Wire.Decoder.Bounds.{
  Guarded, Guarded-pure, Guarded-need, Guarded-Takes, Takes, Takes-take, Takes-uint, InBounds,
}
use project_bifrost.Wire.FieldReloc.{FieldRelocView}
use project_bifrost.Wire.FieldReloc.Decode.{field_reloc_body, decode_one_field_reloc}
use native.Mathlib.Decide.{dec_lt}

body-Guarded : Guarded 8 8 field_reloc_body
unfolding field_reloc_body
body-Guarded = Guarded-Takes 4 8 4 8 4 _ (Takes-uint 4) (omega arith) (omega arith) λ i.
    Guarded-Takes 3 4 3 4 1 _ (Takes-uint 1) (omega arith) (omega arith) λ a.
      Guarded-Takes 2 3 2 3 1 _ (Takes-uint 1) (omega arith) (omega arith) λ o.
        Guarded-Takes 1 2 1 2 1 _ (Takes-uint 1) (omega arith) (omega arith) λ s.
          Guarded-Takes 0 1 0 1 1 _ (Takes-uint 1) (omega arith) (omega arith) λ f.
            Guarded-need 0 (s + f) 0 _ (
              Guarded-Takes f (s + f) 0 0 s _ (Takes-take s) (omega arith) (omega arith) λ x.
                Guarded-Takes 0 f 0 0 f _ (Takes-take f) (omega arith) (omega arith)
                  λ y. Guarded-pure 0 _)

uint_outside :
    (width : ℕ) (bytes : Bytes) (cursor : ℕ)
    → length bytes < cursor + width
    → take_uint width bytes cursor ≡ panic
unfolding take_uint
uint_outside width bytes cursor h = ground arith

module _ {ℓ} {A : Type ℓ} where
  -- A read that is there goes on, and one that panics is the end.
  then-Takes :
      (n : ℕ) {B : Type 0} {p : Decoder B} (f : B → Decoder A)
      → Takes n p
      → (bytes : Bytes) (cursor : ℕ) → cursor + n ≤ length bytes
      → ((b : B) → f b bytes (cursor + n) ≡ panic)
      → (p >>= f) bytes cursor ≡ panic
  unfolding ◌>>=◌
  then-Takes n {B} {p} f t bytes cursor h k = let (b, e) = t.at bytes cursor h in rw e (k b)

  then_panics :
      {B : Type 0} (p : Decoder B) (f : B → Decoder A) (bytes : Bytes) (cursor : ℕ)
      → p bytes cursor ≡ panic
      → (p >>= f) bytes cursor ≡ panic
  unfolding ◌>>=◌
  then_panics p f bytes cursor e = rw e

body_panics :
    (bytes : Bytes) (cursor : ℕ) → cursor + 7 ≡ length bytes → field_reloc_body bytes cursor ≡ panic
unfolding field_reloc_body
body_panics bytes cursor h = then-Takes 4 _ (Takes-uint 4) bytes cursor (omega arith) λ i.
    then-Takes 1 _ (Takes-uint 1) bytes _ (omega arith) λ a.
      then-Takes 1 _ (Takes-uint 1) bytes _ (omega arith) λ o.
        then-Takes 1 _ (Takes-uint 1) bytes _ (omega arith)
          λ s. then_panics _ _ bytes _ (uint_outside 1 bytes _ (omega arith))

enough :
    (bytes : Bytes) (cursor : ℕ)
    → cursor + 7 ≤ length bytes
    → decode_one_field_reloc bytes cursor ≡ field_reloc_body bytes cursor
unfolding need ◌>>=◌ decode_one_field_reloc
enough bytes cursor h = rw (le→ltb _ _ h)

short :
    (bytes : Bytes) (cursor : ℕ)
    → length bytes < cursor + 7
    → decode_one_field_reloc bytes cursor
      ≡ err (truncated (cursor + 7) (length bytes) "field-reloc-record-header")
unfolding need ◌>>=◌ decode_one_field_reloc
short bytes cursor h = rw (lt→ltb _ _ h)

long :
    (bytes : Bytes) (cursor : ℕ) → cursor + 8 ≤ length bytes → field_reloc_body bytes cursor ≢ panic
long bytes cursor h e = judge (field_reloc_body bytes cursor) (body-Guarded.at bytes cursor h) e
  where
    judge : (r : Outcome WireError (FieldRelocView × ℕ)) → InBounds 8 bytes cursor r → r ≢ panic
    judge (ok v) b p = cc
    judge (err x) b p = cc
    judge panic b p = b

-- The decoder of one relocation record panics exactly where 7 bytes are left: its first test lets
-- them pass, and it reads an eighth.
pub decode_one_field_reloc_panics_iff :
    (bytes : Bytes) (cursor : ℕ)
    → (decode_one_field_reloc bytes cursor ≡ panic) ↔ (cursor + 7 ≡ length bytes)
decode_one_field_reloc_panics_iff bytes cursor = (only, panics)
  where
    panics : cursor + 7 ≡ length bytes → decode_one_field_reloc bytes cursor ≡ panic
    panics h = rw (enough bytes cursor (omega arith)) (body_panics bytes cursor h)

    only : decode_one_field_reloc bytes cursor ≡ panic → cursor + 7 ≡ length bytes
    only h = elim (dec_lt (length bytes) (cursor + 7)) [
      | yes few ↦ cc (short bytes cursor few)
      | no more ↦ elim (dec_lt (cursor + 7) (length bytes)) [
        | yes many ↦
            absurd (long bytes cursor (omega arith) (rw (enough bytes cursor (omega arith)) at h))
        | no same ↦ omega arith
      ]
    ]
