-- ===== src/Wire/Decoder/Bounds.antt =====
-- `Guarded k m p`: with `k` bytes left at the cursor, `p` neither panics nor moves the cursor past
-- the end, and where it succeeds it passes over `m` bytes at least.
use project_bifrost.Base.{
  ℕ, ◌+◌, ◌≤◌, ◌≡◌, arith, Bool, true, false, String, Bytes, Outcome, ok, err, panic, length, ltb,
  Bool-cases, inl, inr, if◌then◌else◌, take, drop, from_le, refl, ◌-◌,
}
use project_bifrost.Wire.Error.{WireError}
use project_bifrost.Wire.Decoder.{
  Decoder, pure, fail, ◌>>=◌, slice, need, take_bytes, skip, take_uint, fail_if, spanned, continue,
  cut_span, take_rest,
}

abbrev pub InBounds {ℓ} : {A : Type ℓ} → ℕ → Bytes → ℕ → Outcome WireError (A × ℕ) → Type 0
InBounds m bytes cursor (ok (a, cursor')) = (cursor + m ≤ cursor') × (cursor' ≤ length bytes)
InBounds m bytes cursor (err e) = Unit
InBounds m bytes cursor panic = ⊥

pub record Guarded {ℓ} {A : Type ℓ} (k m : ℕ) (p : Decoder A) : Type ℓ where
  pub at :
      (bytes : Bytes) (cursor : ℕ)
      → cursor + k ≤ length bytes
      → InBounds m bytes cursor (p bytes cursor)

-- `p` takes exactly `n` bytes, where they are there.
pub record Takes {ℓ} {A : Type ℓ} (n : ℕ) (p : Decoder A) : Type ℓ where
  pub at :
      (bytes : Bytes) (cursor : ℕ)
      → cursor + n ≤ length bytes
      → (a : A) × (p bytes cursor ≡ ok (a, cursor + n))

module _ {ℓ} {A : Type ℓ} where
  pub Guarded-pure : (k : ℕ) (a : A) → Guarded k 0 (pure a)
  unfolding pure
  Guarded-pure k a = record { at = λ bytes cursor h. omega arith }

  pub Guarded-fail : (k m : ℕ) (e : WireError) → Guarded {A = A} k m (fail e)
  unfolding fail
  Guarded-fail k m e = record { at = λ bytes cursor h. tt }

  pub Guarded-need :
      (k n m : ℕ) (field : String) {q : Decoder A}
      → Guarded n m q
      → Guarded k m (need n field >>= λ _. q)
  unfolding need ◌>>=◌
  Guarded-need k n m field {q} g = record {
    at = λ bytes cursor h. elim (Bool-cases (ltb (length bytes) (cursor + n))) [
      | inl short ↦ rw short tt
      | inr enough ↦ rw enough (g.at bytes cursor (ground arith))
    ];
  }

  pub Guarded-fail_if :
      (k m : ℕ) (test : Bool) (e : WireError) {q : Decoder A}
      → Guarded k m q
      → Guarded k m (fail_if test e >>= λ _. q)
  unfolding fail_if ◌>>=◌
  Guarded-fail_if k m false e g = record { at = g.at }
  Guarded-fail_if k m true e g = record { at = λ bytes cursor h. tt }

  pub Guarded-if :
      (k m : ℕ) (test : Bool) {p q : Decoder A}
      → Guarded k m p
      → Guarded k m q
      → Guarded k m (if test then p else q)
  Guarded-if k m true g g' = g
  Guarded-if k m false g g' = g'

  pub Guarded-weaken :
      (k k' m m' : ℕ) {p : Decoder A} → k ≤ k' → m' ≤ m → Guarded k m p → Guarded k' m' p
  Guarded-weaken k k' m m' {p} hk hm g = record {
    at = λ bytes cursor h. weaken bytes cursor (p bytes cursor) (g.at bytes cursor (omega arith));
  }
    where
      weaken :
          (bytes : Bytes) (cursor : ℕ) (r : Outcome WireError (A × ℕ))
          → InBounds m bytes cursor r
          → InBounds m' bytes cursor r
      weaken bytes cursor (ok (a, c)) h = omega arith
      weaken bytes cursor (err e) h = tt
      weaken bytes cursor panic h = h

module _ {ℓ κ} {A : Type ℓ} {B : Type κ} where
  pub Guarded-Takes :
      (k k' m m' n : ℕ) {p : Decoder A} (f : A → Decoder B)
      → Takes n p
      → n + k ≤ k'
      → m' ≤ n + m
      → ((a : A) → Guarded k m (f a))
      → Guarded k' m' (p >>= f)
  unfolding ◌>>=◌
  Guarded-Takes k k' m m' n {p} f t hk hm g = record {
    at = λ bytes cursor h.
        let (a, e) = t.at bytes cursor (omega arith) in
        rw e
          (after bytes cursor (f a bytes (cursor + n)) ((g a).at bytes (cursor + n) (omega arith)));
  }
    where
      after :
          (bytes : Bytes) (cursor : ℕ) (r : Outcome WireError (B × ℕ))
          → InBounds m bytes (cursor + n) r
          → InBounds m' bytes cursor r
      after bytes cursor (ok (a, c)) h = omega arith
      after bytes cursor (err e) h = tt
      after bytes cursor panic h = h

  pub Guarded-bind :
      (k m m' : ℕ) {p : Decoder A} (f : A → Decoder B)
      → Guarded k m p
      → ((a : A) → Guarded 0 m' (f a))
      → Guarded k (m + m') (p >>= f)
  unfolding ◌>>=◌
  Guarded-bind k m m' {p} f g gf = record {
    at = λ bytes cursor h. run bytes cursor (p bytes cursor) (g.at bytes cursor h);
  }
    where
      after :
          (bytes : Bytes) (c c' : ℕ) (r : Outcome WireError (B × ℕ))
          → c + m ≤ c'
          → InBounds m' bytes c' r
          → InBounds (m + m') bytes c r
      after bytes c c' (ok (a, c'')) h i = omega arith
      after bytes c c' (err e) h i = tt
      after bytes c c' panic h i = i

      run :
          (bytes : Bytes) (cursor : ℕ) (r : Outcome WireError (A × ℕ))
          → InBounds m bytes cursor r
          → InBounds (m + m') bytes cursor (continue r f bytes)
      run bytes cursor (ok (a, c)) (h, h') =
          after bytes cursor c (f a bytes c) h ((gf a).at bytes c (omega arith))
      run bytes cursor (err e) h = tt
      run bytes cursor panic h = h

pub Guarded-last {ℓ} : {A : Type ℓ} (n : ℕ) {p : Decoder A} → Takes n p → Guarded n n p
Guarded-last n {p} t = record {
  at = λ bytes cursor h. let (a, e) = t.at bytes cursor h in rw e (omega arith);
}

slice_inside :
    (bytes : Bytes) (from to : ℕ)
    → from ≤ to
    → to ≤ length bytes
    → slice bytes from to ≡ ok (take (to - from) (drop from bytes))
unfolding slice
slice_inside bytes from to h h' = ground arith

pub Takes-take : (n : ℕ) → Takes n (take_bytes n)
unfolding take_bytes
Takes-take n = record {
  at = λ bytes cursor h. (
    take (cursor + n - cursor) (drop cursor bytes),
    rw (slice_inside bytes cursor (cursor + n) (omega arith) h),
  );
}

pub Takes-uint : (n : ℕ) → Takes n (take_uint n)
unfolding take_uint
Takes-uint n = record {
  at = λ bytes cursor h. (
    from_le (take (cursor + n - cursor) (drop cursor bytes)),
    rw (slice_inside bytes cursor (cursor + n) (omega arith) h),
  );
}

pub Takes-skip : (n : ℕ) → Takes n (skip n)
unfolding skip
Takes-skip n = record { at = λ bytes cursor h. (tt, refl) }

pub Guarded-spanned : (k m : ℕ) {p : Decoder (Unit {0})} → Guarded k m p → Guarded k m (spanned p)
unfolding spanned
Guarded-spanned k m {p} g = record {
  at = λ bytes cursor h. cut bytes cursor (p bytes cursor) (g.at bytes cursor h);
}
  where
    cut :
        (bytes : Bytes) (cursor : ℕ) (r : Outcome WireError (Unit {0} × ℕ))
        → InBounds m bytes cursor r
        → InBounds m bytes cursor (cut_span bytes cursor r)
    cut bytes cursor (ok (u, c)) (h, h') = rw (slice_inside bytes cursor c (omega arith) h') (h, h')
    cut bytes cursor (err e) h = tt
    cut bytes cursor panic h = h

pub Guarded-rest {ℓ} : {A : Type ℓ} (g : Bytes → A) → Guarded 0 0 (take_rest >>= λ r. pure (g r))
unfolding take_rest ◌>>=◌ pure
Guarded-rest g = record {
  at = λ bytes cursor h.
      rw (slice_inside bytes cursor (length bytes) (omega arith) (omega arith)) (omega arith);
}
