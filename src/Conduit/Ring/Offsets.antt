-- ===== src/Conduit/Ring/Offsets.antt =====
-- Where the positions of a ring's cursors fall in the ring.
use project_bifrost.Base.{ℕ, ◌+◌, ◌-◌, ◌*◌, ◌/◌, ◌%◌, ◌≤◌, ◌<◌, ◌≡◌, inl, inr, arith, ◌∙◌, ap, sym}
use project_bifrost.Conduit.Memory.{Apart}
use native.Mathlib.Nat.{mod-lt, mul-le-mul_left, mul-suc, mul_assoc, mod-add-mod, mod_self}
use native.Mathlib.Omega.{div_any}
use native.Mathlib.Decide.{dec_lt}

-- An area inside another is apart from what the other is apart from.
pub Apart-within : (a k b n c m : ℕ) → Apart a k b n → b ≤ c → c + m ≤ b + n → Apart a k c m
Apart-within a k b n c m (inl h) le fit = inl (omega arith)
Apart-within a k b n c m (inr h) le fit = inr (omega arith)

-- Two stretches of positions, one after the other and within one length of the ring, lie in
-- bytes that have none in common, when neither goes over the ring's end.
pub offsets-Apart :
    (off len p n q k : ℕ)
    → 0 < len
    → 0 < n
    → p % len + n ≤ len
    → q % len + k ≤ len
    → p + n ≤ q
    → q + k ≤ p + len
    → Apart (off + q % len) k (off + p % len) n
offsets-Apart off len p n q k pos some_n fits_p fits_q after within =
    elim (dec_lt (p / len) (q / len)) [
      | yes lt ↦ inl (
          omega (
            arith,
            div_any p len,
            div_any q len,
            mul-suc len (p / len),
            mul-le-mul_left {m = 1 + p / len} {n = q / len} len (omega arith),
          ))
      | no ge ↦ inr (
          omega (
            arith,
            div_any p len,
            div_any q len,
            mod-lt q pos,
            mul-le-mul_left {m = q / len} {n = p / len} len (omega arith),
          ))
    ]

-- The position after the rest of the ring is at the ring's begin.
pub offset-tail : (len p : ℕ) → 0 < len → (p + (len - p % len)) % len ≡ 0
offset-tail len p pos =
    sym (mod-add-mod p len (len - p % len))
    ∙ ap (λ (t : ℕ). t % len)
        (let whole : p % len + (len - p % len) ≡ len = omega (arith, mod-lt p pos) in whole)
    ∙ mod_self len

-- Positions that are multiples of 16 have offsets that are.
pub offset_aligned : (len p : ℕ) → len % 16 ≡ 0 → p % 16 ≡ 0 → (p % len) % 16 ≡ 0
offset_aligned len p hl hp =
    omega
      (arith, div_any p len, mul_assoc 16 (len / 16) (p / len), ap (λ (t : ℕ). t * (p / len)) whole)
  where
    whole : len ≡ 16 * (len / 16)
    whole = omega arith
