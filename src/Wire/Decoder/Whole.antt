-- ===== src/Wire/Decoder/Whole.antt =====
-- Decoders that keep the rest of their input: `ReadsAll p chunk a` says that `p`, started where
-- `chunk` begins and the input ends with it, returns `a` at the end of the input.
use project_bifrost.Base.{
  ℕ, ◌+◌, ◌-◌, ◌≤◌, ◌≡◌, arith, false, String, [], ◌++◌, append_assoc, Bytes, ok, length, ltb,
  sizes, length-append_bytes, le→ltb, drop-append_length, take_all,
}
use project_bifrost.Wire.Decoder.{Decoder, pure, ◌>>=◌, need, take_rest, slice}
use project_bifrost.Wire.Decoder.Reads.{Reads}

pub record ReadsAll {ℓ} {A : Type ℓ} (p : Decoder A) (chunk : Bytes) (a : A) : Type ℓ where
  pub at : (before : Bytes) → p (before ++ chunk) (length before) ≡ ok (a, length (before ++ chunk))

module _ {ℓ κ} {A : Type ℓ} {B : Type κ} where
  pub ReadsAll-bind :
      {p : Decoder A} (f : A → Decoder B) {c d : Bytes} (a : A) {b : B}
      → Reads p c a
      → ReadsAll (f a) d b
      → ReadsAll (p >>= f) (c ++ d) b
  unfolding ◌>>=◌
  ReadsAll-bind {p} f {c} {d} a {b} rp rf = record {
    at = λ before.
        rw (rp.at before d)
          (rw (← append_assoc before c d, ← length-append_bytes before c) (rf.at (before ++ c)));
  }

module _ {ℓ} {A : Type ℓ} where
  pub ReadsAll-need :
      (n : ℕ) (field : String) {q : Decoder A} {c : Bytes} {a : A}
      → n ≤ length c
      → ReadsAll q c a
      → ReadsAll (need n field >>= λ _. q) c a
  unfolding need ◌>>=◌
  ReadsAll-need n field {q} {c} {a} h r = record { at = λ before. rw (enough before) (r.at before) }
    where
      enough : (before : Bytes) → ltb (length (before ++ c)) (length before + n) ≡ false
      enough before = le→ltb _ _ (omega sizes)

slice_end : (before c : Bytes) → slice (before ++ c) (length before) (length (before ++ c)) ≡ ok c
unfolding slice
slice_end before c = ground (
  arith,
  length-append_bytes before c,
  drop-append_length before c,
  take_all (length (before ++ c) - length before) c (omega sizes),
)

pub ReadsAll-rest {ℓ} :
    {A : Type ℓ} (g : Bytes → A) (c : Bytes) → ReadsAll (take_rest >>= λ r. pure (g r)) c (g c)
unfolding take_rest ◌>>=◌ pure
ReadsAll-rest g c = record { at = λ before. rw (slice_end before c) }

pub ReadsAll-whole {ℓ} :
    {A : Type ℓ} {p : Decoder A} {c : Bytes} {a : A} → ReadsAll p c a → p c 0 ≡ ok (a, length c)
ReadsAll-whole r = r.at []
