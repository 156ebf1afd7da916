-- ===== src/Wire/Decoder/Reads.antt =====
-- `Reads p chunk a`: wherever `chunk` stands in an input, `p` started at it returns `a` and stops
-- just behind it. One rule for each way to build a decoder.
use project_bifrost.Base.{
  ◌∙◌, ◌∷◌, ◌%◌, ℕ, ◌+◌, ◌-◌, ◌^◌, ◌≤◌, ◌<◌, ◌≡◌, refl, ap, arith, Bool, false, String, [], ◌++◌,
  append_assoc, append-nil, subst, Bytes, ok, length, ltb, le_bytes, le→ltb, length-append_bytes,
  length-le_bytes, from_le-le_bytes, take-append_length, drop-append_length, sizes,
}
use project_bifrost.Wire.Error.{WireError}
use project_bifrost.Wire.Decoder.{
  Decoder, pure, ◌>>=◌, slice, need, take_bytes, skip, take_uint, fail_if, spanned,
}

pub record Reads {ℓ} {A : Type ℓ} (p : Decoder A) (chunk : Bytes) (a : A) : Type ℓ where
  pub at :
      (before after : Bytes)
      → p (before ++ (chunk ++ after)) (length before) ≡ ok (a, length before + length chunk)

module _ {ℓ} {A : Type ℓ} where
  pub Reads-pure : (a : A) → Reads (pure a) [] a
  unfolding pure
  Reads-pure a = record {
    at = λ before after.
        ap (λ (n : ℕ). ok (a, n)) (let e : length before ≡ length before + 0 = omega arith in e);
  }

append_assoc_length : (x y z : Bytes) → length x + length (y ++ z) ≡ length x + length y + length z
append_assoc_length x y z = omega sizes

module _ {ℓ κ} {A : Type ℓ} {B : Type κ} where
  pub Reads-bind :
      {p : Decoder A} (f : A → Decoder B) {c d : Bytes} (a : A) {b : B}
      → Reads p c a
      → Reads (f a) d b
      → Reads (p >>= f) (c ++ d) b
  unfolding ◌>>=◌
  Reads-bind {p} f {c} {d} a {b} rp rf = record {
    at = λ before after.
        rw (append_assoc c d after, rp.at before (d ++ after), append_assoc_length before c d)
          (rw (← append_assoc before c (d ++ after), ← length-append_bytes before c)
            (rf.at (before ++ c) after));
  }

middle_length :
    (before chunk : Bytes) (to : ℕ)
    → to ≡ length before + length chunk
    → to - length before ≡ length chunk
middle_length before chunk to h = omega arith

module _ {ℓ κ} {A : Type ℓ} {B : Type κ} where
  -- The last read of a decoder that returns what it has read.
  pub Reads-last :
      {p : Decoder A} (g : A → B) {c : Bytes} {a : A}
      → Reads p c a
      → Reads (p >>= λ x. pure (g x)) c (g a)
  Reads-last {p} g {c} {a} r =
      subst (λ (d : Bytes). Reads (p >>= λ x. pure (g x)) d (g a)) (append-nil c)
        (Reads-bind (λ x. pure (g x)) a r (Reads-pure (g a)))

-- The cut out of the middle.
slice_middle :
    (before chunk after : Bytes) (to : ℕ)
    → to ≡ length before + length chunk
    → slice (before ++ (chunk ++ after)) (length before) to ≡ ok chunk
unfolding slice
slice_middle before chunk after to h = ground (
  arith,
  length-append_bytes before (chunk ++ after),
  length-append_bytes chunk after,
  drop-append_length before (chunk ++ after),
  take-append_length chunk after,
  middle_length before chunk to h,
)

pub Reads-take : (c : Bytes) (n : ℕ) → length c ≡ n → Reads (take_bytes n) c c
unfolding take_bytes
Reads-take c n h = record {
  at = λ before after. rw (slice_middle before c after (length before + n) (omega arith), ← h);
}

pub Reads-uint : (width n : ℕ) → n < 256 ^ width → Reads (take_uint width) (le_bytes width n) n
unfolding take_uint
Reads-uint width n h = record {
  at = λ before after.
      rw (Reads.at (Reads-take (le_bytes width n) width (length-le_bytes width n)) before after)
        (rw (from_le-le_bytes width n h));
}

pub Reads-skip : (c : Bytes) (n : ℕ) → length c ≡ n → Reads (skip n) c tt
unfolding skip
Reads-skip c n h = record { at = λ before after. rw h }

module _ {ℓ} {A : Type ℓ} where
  -- `need` is met by what stands behind it.
  pub Reads-need :
      (n : ℕ) (field : String) {q : Decoder A} {c : Bytes} {a : A}
      → n ≤ length c
      → Reads q c a
      → Reads (need n field >>= λ _. q) c a
  unfolding need ◌>>=◌
  Reads-need n field {q} {c} {a} h r = record {
    at = λ before after. rw (enough before after) (r.at before after);
  }
    where
      enough :
          (before after : Bytes) → ltb (length (before ++ (c ++ after))) (length before + n) ≡ false
      enough before after = le→ltb _ _ (omega sizes)

  pub Reads-fail_if :
      (test : Bool) (e : WireError) {q : Decoder A} {c : Bytes} {a : A}
      → test ≡ false
      → Reads q c a
      → Reads (fail_if test e >>= λ _. q) c a
  unfolding fail_if ◌>>=◌
  Reads-fail_if test e h r = record { at = λ before after. rw h (r.at before after) }

pub Reads-spanned : {p : Decoder (Unit {0})} {c : Bytes} → Reads p c tt → Reads (spanned p) c c
unfolding spanned
Reads-spanned {p} {c} r = record {
  at = λ before after.
      rw (spanned, r.at before after, slice_middle before c after (length before + length c) refl);
}

-- A number that was narrowed before it was written, and fits.
pub Reads-cast :
    (width b n : ℕ) → b ≡ n → n < 256 ^ width → Reads (take_uint width) (le_bytes width b) n
Reads-cast width b n e h = rw e (Reads-uint width n h)

pub Reads-byte : (b n : ℕ) → b ≡ n → n < 256 → Reads (take_uint 1) (b ∷ []) n
unfolding le_bytes
Reads-byte b n e h =
    subst (λ (c : ℕ). Reads (take_uint 1) (c ∷ []) n) (let low : n % 256 ≡ b = omega arith in low)
      (Reads-uint 1 n h)

-- The chunk as the whole input.
pub Reads-whole {ℓ} :
    {A : Type ℓ} {p : Decoder A} {c : Bytes} {a : A} → Reads p c a → p c 0 ≡ ok (a, length c)
Reads-whole {p = p} {c} {a} r =
    rw append-nil at (r.at [] [])
    ∙ ap (λ (n : ℕ). ok (a, n)) (let e : 0 + length c ≡ length c = omega arith in e)

pub Reads-chunk {ℓ} :
    {A : Type ℓ} {p : Decoder A} {c d : Bytes} {a : A} → c ≡ d → Reads p c a → Reads p d a
Reads-chunk {p = p} {a = a} e r = subst (λ (t : Bytes). Reads p t a) e r
