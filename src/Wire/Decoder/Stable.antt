-- ===== src/Wire/Decoder/Stable.antt =====
-- `Stable p`: more input changes nothing but a `truncated` answer. A value stays that value at the
-- same cursor, and any other error stays that error.
use project_bifrost.Base.{
  ℕ, ◌+◌, ◌-◌, ◌≤◌, ◌≡◌, refl, arith, Bool, true, false, String, ◌++◌, Bytes, Outcome, ok, err,
  panic, length, take, drop, ltb, leb, Bool-cases, inl, inr, if◌then◌else◌, length-append_bytes,
  take-append_le, drop-append_le, length-drop, from_le, ◌&&◌,
}
use project_bifrost.Wire.Error.{WireError, truncated}
use project_bifrost.Wire.Decoder.{
  Decoder, pure, fail, ◌>>=◌, slice, need, take_bytes, skip, take_uint, fail_if, spanned, continue,
  at_cursor, cut_span,
}

abbrev pub Extends {ℓ} : {A : Type ℓ} → Outcome WireError A → Outcome WireError A → Type ℓ
Extends (ok a) r = r ≡ ok a
Extends (err (truncated n h at)) r = Unit
Extends (err e) r = r ≡ err e
Extends panic r = Unit

pub record Stable {ℓ} {A : Type ℓ} (p : Decoder A) : Type ℓ where
  pub at : (bytes more : Bytes) (cursor : ℕ) → Extends (p bytes cursor) (p (bytes ++ more) cursor)

Extends-err {ℓ} : (A : Type ℓ) (e : WireError) → Extends {A = A} (err e) (err e)
Extends-err A (truncated n h at) = tt
Extends-err A e = refl

module _ {ℓ} {A : Type ℓ} where
  pub Stable-pure : (a : A) → Stable (pure a)
  unfolding pure
  Stable-pure a = record { at = λ bytes more cursor. refl }

  pub Stable-fail : (e : WireError) → Stable {A = A} (fail e)
  unfolding fail
  Stable-fail e = record { at = λ bytes more cursor. Extends-err (A × ℕ) e }

  pub Stable-if :
      (test : Bool) {p q : Decoder A} → Stable p → Stable q → Stable (if test then p else q)
  Stable-if true s s' = s
  Stable-if false s s' = s'

  pub Stable-fail_if :
      (test : Bool) (e : WireError) {q : Decoder A} → Stable q → Stable (fail_if test e >>= λ _. q)
  unfolding fail_if ◌>>=◌
  Stable-fail_if false e s = record { at = s.at }
  Stable-fail_if true e s = record { at = λ bytes more cursor. Extends-err (A × ℕ) e }

module _ {ℓ κ} {A : Type ℓ} {B : Type κ} where
  continue-Extends :
      (f : A → Decoder B) (bytes more : Bytes)
      → ((a : A) → Stable (f a))
      → (r r' : Outcome WireError (A × ℕ)) → Extends r r'
      → Extends (continue r f bytes) (continue r' f (bytes ++ more))
  continue-Extends f bytes more s (ok (a, c)) r' h = rw h ((s a).at bytes more c)
  continue-Extends f bytes more s (err (truncated n h' at)) r' h = tt
  continue-Extends f bytes more s (err e) r' h = rw h
  continue-Extends f bytes more s panic r' h = tt

  pub Stable-bind :
      {p : Decoder A} (f : A → Decoder B) → Stable p → ((a : A) → Stable (f a)) → Stable (p >>= f)
  unfolding ◌>>=◌
  Stable-bind {p} f sp sf = record {
    at = λ bytes more cursor.
        continue-Extends f bytes more sf (p bytes cursor) (p (bytes ++ more) cursor)
          (sp.at bytes more cursor);
  }

pub Stable-need : (n : ℕ) (field : String) → Stable (need n field)
unfolding need
Stable-need n field = record {
  at = λ bytes more cursor. elim (Bool-cases (ltb (length bytes) (cursor + n))) [
    | inl short ↦ rw short tt
    | inr enough ↦ rw enough (rw (still bytes more cursor enough))
  ];
}
  where
    still :
        (bytes more : Bytes) (cursor : ℕ)
        → ltb (length bytes) (cursor + n) ≡ false
        → ltb (length (bytes ++ more)) (cursor + n) ≡ false
    still bytes more cursor h = ground (arith, length-append_bytes bytes more)

pub slice-Extends :
    (bytes more : Bytes) (from to : ℕ)
    → Extends (slice bytes from to) (slice (bytes ++ more) from to)
unfolding slice
slice-Extends bytes more from to = elim (Bool-cases (leb from to && leb to (length bytes))) [
  | inl inside ↦ rw inside (rw (still inside, same inside))
  | inr outside ↦ rw outside tt
]
  where
    still :
        (leb from to && leb to (length bytes)) ≡ true
        → (leb from to && leb to (length (bytes ++ more))) ≡ true
    still h = ground (arith, length-append_bytes bytes more)

    same :
        (leb from to && leb to (length bytes)) ≡ true
        → take (to - from) (drop from (bytes ++ more)) ≡ take (to - from) (drop from bytes)
    same h =
        let fits : (from ≤ to) × (to ≤ length bytes) = ground arith in
        rw (drop-append_le from bytes more (omega arith)) (
          take-append_le (to - from) (drop from bytes) more (omega (arith, length-drop from bytes)))

at_cursor-Extends :
    (r r' : Outcome WireError Bytes) (c : ℕ)
    → Extends r r'
    → Extends (at_cursor r c) (at_cursor r' c)
at_cursor-Extends (ok b) r' c h = rw h
at_cursor-Extends (err (truncated n h' at)) r' c h = tt
at_cursor-Extends (err e) r' c h = rw h
at_cursor-Extends panic r' c h = tt

pub Stable-take : (n : ℕ) → Stable (take_bytes n)
unfolding take_bytes
Stable-take n = record {
  at = λ bytes more cursor.
      at_cursor-Extends _ _ (cursor + n) (slice-Extends bytes more cursor (cursor + n));
}

pub Stable-uint : (n : ℕ) → Stable (take_uint n)
unfolding take_uint
Stable-uint n = Stable-bind (λ b. pure (from_le b)) (Stable-take n) (λ b. Stable-pure (from_le b))

pub Stable-skip : (n : ℕ) → Stable (skip n)
unfolding skip
Stable-skip n = record { at = λ bytes more cursor. refl }

pub Stable-spanned : {p : Decoder (Unit {0})} → Stable p → Stable (spanned p)
unfolding spanned
Stable-spanned {p} s = record {
  at = λ bytes more start.
      cut bytes more start (p bytes start) (p (bytes ++ more) start) (s.at bytes more start);
}
  where
    cut :
        (bytes more : Bytes) (start : ℕ) (r r' : Outcome WireError (Unit {0} × ℕ))
        → Extends r r'
        → Extends (cut_span bytes start r) (cut_span (bytes ++ more) start r')
    cut bytes more start (ok (u, c)) r' h =
        rw h (at_cursor-Extends _ _ c (slice-Extends bytes more start c))
    cut bytes more start (err (truncated n h' at)) r' h = tt
    cut bytes more start (err e) r' h = rw h
    cut bytes more start panic r' h = tt
