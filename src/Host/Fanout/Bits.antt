-- ===== src/Host/Fanout/Bits.antt =====
-- The binary digits of the bitwise `and` and `or`.
use project_bifrost.Base.{
  ℕ, zero, suc, ◌+◌, ◌*◌, ◌/◌, ◌%◌, ◌^◌, ◌≤◌, ◌≡◌, ◌∙◌, ap, min, arith, refl, ◌==◌, if◌then◌else◌,
}
use native.Mathlib.Nat.{pow-suc}
use Prim.Native.Nat.{bit_and, bit_or, max, digits, bit_and-bitwise, bit_or-bitwise}

digits-le : (n a b : ℕ) → digits (λ b. zero) min n a b ≤ b
digits-le zero a b = omega arith
digits-le (suc n) zero b = omega arith
digits-le (suc n) (suc a) b = omega (arith, digits-le n (suc a / 2) (b / 2))

pub bit_and-le : (a b : ℕ) → bit_and a b ≤ b
bit_and-le a b = omega (arith, bit_and-bitwise a b, digits-le a a b)

-- The digit of `2 ^ k` in `n`.
unfoldable pub digit : ℕ → ℕ → ℕ
digit zero n = n % 2
digit (suc k) n = digit k (n / 2)

pub digit-zero : (k : ℕ) → digit k 0 ≡ 0
unfolding digit
digit-zero zero = refl
digit-zero (suc k) = digit-zero k

pub digit-le : (k n : ℕ) → digit k n ≤ 1
unfolding digit
digit-le zero n = omega arith
digit-le (suc k) n = digit-le k (n / 2)

digit-digits_and :
    (n k a b : ℕ) → a ≤ n → digit k (digits (λ b. zero) min n a b) ≡ min (digit k a) (digit k b)
unfolding digit
digit-digits_and zero k a b h =
    let none : a ≡ 0 = omega arith in rw none (omega (arith, digit-zero k))
digit-digits_and (suc n) k zero b h = omega (arith, digit-zero k)
digit-digits_and (suc n) zero (suc a) b h = omega arith
digit-digits_and (suc n) (suc k) (suc a) b h =
    let rest = digits (λ b. zero) min n (suc a / 2) (b / 2) in
    let half : (rest * 2 + min (suc a % 2) (b % 2)) / 2 ≡ rest = omega arith in
    ap (digit k) half ∙ digit-digits_and n k (suc a / 2) (b / 2) (omega arith)

digit-digits_or :
    (n k a b : ℕ) → a ≤ n → digit k (digits (λ b. b) max n a b) ≡ max (digit k a) (digit k b)
unfolding digit
digit-digits_or zero k a b h =
    let none : a ≡ 0 = omega arith in rw none (omega (arith, digit-zero k))
digit-digits_or (suc n) k zero b h = omega (arith, digit-zero k)
digit-digits_or (suc n) zero (suc a) b h = omega arith
digit-digits_or (suc n) (suc k) (suc a) b h =
    let rest = digits (λ b. b) max n (suc a / 2) (b / 2) in
    let half : (rest * 2 + max (suc a % 2) (b % 2)) / 2 ≡ rest = omega arith in
    ap (digit k) half ∙ digit-digits_or n k (suc a / 2) (b / 2) (omega arith)

pub digit-bit_and : (k a b : ℕ) → digit k (bit_and a b) ≡ min (digit k a) (digit k b)
digit-bit_and k a b = ap (digit k) (bit_and-bitwise a b) ∙ digit-digits_and a k a b (omega arith)

pub digit-bit_or : (k a b : ℕ) → digit k (bit_or a b) ≡ max (digit k a) (digit k b)
digit-bit_or k a b = ap (digit k) (bit_or-bitwise a b) ∙ digit-digits_or a k a b (omega arith)

pub digit-power : (k j : ℕ) → digit k (2 ^ j) ≡ (if k == j then 1 else 0)
unfolding digit
digit-power zero zero = refl
digit-power (suc k) zero = ground (arith, digit-zero k)
digit-power zero (suc j) = ground (arith, pow-suc 2 j)
digit-power (suc k) (suc j) =
    let half : 2 ^ suc j / 2 ≡ 2 ^ j = omega (arith, pow-suc 2 j) in
    ap (digit k) half ∙ ground (arith, digit-power k j)
