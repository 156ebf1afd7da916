-- ===== src/Wire/Decoder.antt =====
-- The decoders of host/bifrost-wire/src/codec.rs share one shape: a borrowed input, a cursor into
-- it, and `?` on errors. An index or a slice out of bounds is a panic, as it is in Rust. Cursors
-- are `usize` on a 64-bit host, where no sum of a length and a 32-bit count wraps.
pub mod Reads
pub mod Bounds
pub mod Stable
pub mod Cut
pub mod Whole
use project_bifrost.Base.{
  ℕ, ◌+◌, ◌-◌, Bool, true, false, ◌&&◌, String, Bytes, Outcome, ok, err, panic, length, take, drop,
  leb, ltb, if◌then◌else◌, from_le,
}
use project_bifrost.Wire.Error.{WireError, truncated}

abbrev pub Decoder {ℓ} : Type ℓ → Type ℓ
Decoder A = Bytes → ℕ → Outcome WireError (A × ℕ)

module _ {ℓ} {A : Type ℓ} where
  unfoldable pub pure : A → Decoder A
  pure a bytes cursor = ok (a, cursor)

  unfoldable pub fail : WireError → Decoder A
  fail e bytes cursor = err e

  abbrev pub continue {κ} :
      {B : Type κ} → Outcome WireError (A × ℕ) → (A → Decoder B) → Bytes → Outcome WireError (B × ℕ)
  continue (ok (a, cursor)) f bytes = f a bytes cursor
  continue (err e) f bytes = err e
  continue panic f bytes = panic

infixl 5 ◌>>=◌ ◌>>◌
unfoldable pub ◌>>=◌ {ℓ κ} : {A : Type ℓ} {B : Type κ} → Decoder A → (A → Decoder B) → Decoder B
◌>>=◌ p f bytes cursor = continue (p bytes cursor) f bytes

abbrev pub ◌>>◌ {κ} : {B : Type κ} → Decoder (Unit {0}) → Decoder B → Decoder B
p >> q = p >>= λ _. q

-- `&bytes[from..to]`
unfoldable pub slice : Bytes → ℕ → ℕ → Outcome WireError Bytes
slice bytes from to =
    if leb from to && leb to (length bytes) then ok (take (to - from) (drop from bytes)) else panic

abbrev pub at_cursor : Outcome WireError Bytes → ℕ → Outcome WireError (Bytes × ℕ)
at_cursor (ok b) cursor = ok (b, cursor)
at_cursor (err e) cursor = err e
at_cursor panic cursor = panic

-- `need(bytes, cursor, n, field)?`
unfoldable pub need : ℕ → String → Decoder (Unit {0})
need n field bytes cursor =
    if ltb (length bytes) (cursor + n)
    then err (truncated (cursor + n) (length bytes) field)
    else ok (tt, cursor)

-- `&bytes[cursor..cursor + n]`, then `cursor += n`
unfoldable pub take_bytes : ℕ → Decoder Bytes
unfolding slice
take_bytes n bytes cursor = at_cursor (slice bytes cursor (cursor + n)) (cursor + n)

-- `cursor += n`
unfoldable pub skip : ℕ → Decoder (Unit {0})
skip n bytes cursor = ok (tt, cursor + n)

-- `uN::from_le_bytes(bytes[cursor..cursor + width].try_into().unwrap())`, then `cursor += width`;
-- at width 1 this is `bytes[cursor]`
unfoldable pub take_uint : ℕ → Decoder ℕ
unfolding take_bytes pure ◌>>=◌
take_uint width = do b ← take_bytes width; pure (from_le b)

-- `if test { return Err(e) }`
unfoldable pub fail_if : Bool → WireError → Decoder (Unit {0})
fail_if true e bytes cursor = err e
fail_if false e bytes cursor = ok (tt, cursor)

abbrev pub cut_span : Bytes → ℕ → Outcome WireError (Unit {0} × ℕ) → Outcome WireError (Bytes × ℕ)
cut_span bytes start (ok (u, cursor)) = at_cursor (slice bytes start cursor) cursor
cut_span bytes start (err e) = err e
cut_span bytes start panic = panic

-- The bytes that `p` passes over: `&bytes[start..cursor]`.
unfoldable pub spanned : Decoder (Unit {0}) → Decoder Bytes
spanned p bytes start = cut_span bytes start (p bytes start)

-- `&bytes[cursor..]`
unfoldable pub take_rest : Decoder Bytes
unfolding slice
take_rest bytes cursor = at_cursor (slice bytes cursor (length bytes)) (length bytes)
