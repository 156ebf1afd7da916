-- ===== src/Base/Ints.antt =====
-- Signed integers over the native numbers, under the library's names, and the casts to `i16`
-- and `i32`.
use project_bifrost.Base.Tests.{ltb, leb, if◌then◌else◌}
use Prim.Native.Nat.{ℕ, suc, ◌+◌, ◌-◌, ◌%◌, ◌^◌, ◌≤◌, ◌<◌}
use mathlib.Core.Bool.{Bool}

-- `negsuc n` is -(n + 1).
pub data ℤ : Type 0 where
  pos : ℕ → ℤ
  negsuc : ℕ → ℤ

abbrev pub pos_part : ℤ → ℕ
pos_part (pos n) = n
pos_part (negsuc n) = 0

abbrev pub neg_part : ℤ → ℕ
neg_part (pos n) = 0
neg_part (negsuc n) = suc n

infixl 65 ◌+ℤ◌
infix 50 ◌≤ℤ◌
infix 50 ◌<ℤ◌
unfoldable pub ◌+ℤ◌ : ℤ → ℤ → ℤ
a +ℤ b =
    let up = pos_part a + pos_part b in
    let down = neg_part a + neg_part b in
    if leb down up then pos (up - down) else negsuc (down - up - 1)

abbrev pub ◌≤ℤ◌ : ℤ → ℤ → Type 0
a ≤ℤ b = pos_part a + neg_part b ≤ pos_part b + neg_part a

abbrev pub ◌<ℤ◌ : ℤ → ℤ → Type 0
a <ℤ b = pos_part a + neg_part b < pos_part b + neg_part a

abbrev pub ltb_ℤ : ℤ → ℤ → Bool
ltb_ℤ a b = ltb (pos_part a + neg_part b) (pos_part b + neg_part a)

-- The integer with the two's complement `n`, at half the range `h`.
abbrev pub signed : ℕ → ℕ → ℤ
signed h n = if ltb n h then pos n else negsuc (h + h - n - 1)

abbrev pub as_i16 : ℕ → ℤ
as_i16 n = signed (2 ^ 15) (n % 2 ^ 16)

-- `as i32` of an `i64`.
abbrev pub as_i32 : ℤ → ℤ
as_i32 (pos n) = signed (2 ^ 31) (n % 2 ^ 32)
as_i32 (negsuc n) = signed (2 ^ 31) (2 ^ 32 - 1 - n % 2 ^ 32)
