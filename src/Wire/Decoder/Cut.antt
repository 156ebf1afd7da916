-- ===== src/Wire/Decoder/Cut.antt =====
-- An input that ends inside a record is refused as `truncated`.
use project_bifrost.Base.{
  ℕ, ◌+◌, ◌<◌, ◌≡◌, refl, [], append-nil, arith, ◌∷◌, ◌++◌, append_assoc, String, Bytes, Outcome,
  ok, err, panic, length, sizes,
}
use project_bifrost.Wire.Error.{WireError, truncated}
use project_bifrost.Wire.Decoder.{Decoder}
use project_bifrost.Wire.Decoder.Reads.{Reads}
use project_bifrost.Wire.Decoder.Bounds.{Guarded, InBounds}
use project_bifrost.Wire.Decoder.Stable.{Stable, Extends}

abbrev pub IsTruncated {ℓ} : {A : Type ℓ} → Outcome WireError A → Type ℓ
IsTruncated {A = A} r = (n : ℕ) × (have : ℕ) × (at : String) × (r ≡ err (truncated n have at))

module _ {ℓ} {A : Type ℓ} where
  judge :
      (bytes : Bytes) (cursor end : ℕ) (a : A) (r r' : Outcome WireError (A × ℕ))
      → length bytes < end
      → InBounds 0 bytes cursor r
      → Extends r r'
      → r' ≡ ok (a, end)
      → IsTruncated r
  judge bytes cursor end a (ok (b, c)) r' short (_, inside) ext full =
      let same : c ≡ end = ground arith in absurd (omega arith)
  judge bytes cursor end a (err (truncated n have at)) r' short inside ext full =
      (n, have, at, refl)
  judge bytes cursor end a (err e) r' short inside ext full = cc
  judge bytes cursor end a panic r' short inside ext full = absurd inside

  pub cut_short :
      {p : Decoder A} {chunk : Bytes} {a : A}
      → Guarded 0 0 p
      → Stable p
      → Reads p chunk a
      → (before front back : Bytes) (x : ℕ) → chunk ≡ front ++ (x ∷ back)
      → IsTruncated (p (before ++ front) (length before))
  cut_short {p} {chunk} {a} g s r before front back x e =
      judge (before ++ front) (length before) (length before + length chunk) a _ _
        (rw e (omega sizes)) (g.at (before ++ front) (length before) (omega sizes))
        (s.at (before ++ front) (x ∷ back) (length before)) (rw (append_assoc, ← e) whole)
    where
      whole : p (before ++ chunk) (length before) ≡ ok (a, length before + length chunk)
      whole = rw append-nil at (r.at before [])
