-- ===== src/Conduit/Memory.antt =====
-- The bytes of the mapped control region, read and written through raw pointers
-- (host/virtio-conduit/src/control.rs, host/bifrost/src/control_shmem.rs).
-- An address is an offset from the region's base.
use project_bifrost.Base.{
  ℕ, zero, suc, ◌+◌, ◌≤◌, ◌<◌, ◌≡◌, ◌⊎◌, inl, inr, refl, sym, ap, ◌∙◌, subst, arith, [], ◌∷◌, Bytes,
  length, ◌==◌, if◌then◌else◌, le_bytes, from_le, length-le_bytes, from_le-le_bytes, IsU32, IsU64,
}

abbrev pub Memory : Type 0
Memory = ℕ → ℕ

unfoldable pub poke : ℕ → Bytes → Memory → Memory
poke at [] m = m
poke at (b ∷ bs) m = λ i. if i == at then b else poke (suc at) bs m i

unfoldable pub peek : Memory → ℕ → ℕ → Bytes
peek m at zero = []
peek m at (suc n) = m at ∷ peek m (suc at) n

unfoldable pub write_u32_le : ℕ → ℕ → Memory → Memory
write_u32_le at val m = poke at (le_bytes 4 val) m

unfoldable pub write_u64_le : ℕ → ℕ → Memory → Memory
write_u64_le at val m = poke at (le_bytes 8 val) m

unfoldable pub read_u32_le : Memory → ℕ → ℕ
read_u32_le m at = from_le (peek m at 4)

unfoldable pub read_u64_le : Memory → ℕ → ℕ
read_u64_le m at = from_le (peek m at 8)

-- Two areas with no byte in common.
abbrev pub Apart : ℕ → ℕ → ℕ → ℕ → Type 0
Apart a n b k = (a + n ≤ b) ⊎ (b + k ≤ a)

poke_below : (at : ℕ) (bs : Bytes) (m : Memory) (i : ℕ) → i < at → poke at bs m i ≡ m i
unfolding poke
poke_below at [] m i h = refl
poke_below at (b ∷ bs) m i h = ground (arith, poke_below (suc at) bs m i (omega arith))

poke_above : (at : ℕ) (bs : Bytes) (m : Memory) (i : ℕ) → at + length bs ≤ i → poke at bs m i ≡ m i
unfolding poke
poke_above at [] m i h = refl
poke_above at (b ∷ bs) m i h = ground (arith, poke_above (suc at) bs m i (omega arith))

pub peek-poke-Apart :
    (at : ℕ) (bs : Bytes) (m : Memory) (p n : ℕ)
    → Apart at (length bs) p n
    → peek (poke at bs m) p n ≡ peek m p n
unfolding peek
peek-poke-Apart at bs m p zero h = refl
peek-poke-Apart at bs m p (suc n) (inl h) =
    ground (arith, poke_above at bs m p h, peek-poke-Apart at bs m (suc p) n (inl (omega arith)))
peek-poke-Apart at bs m p (suc n) (inr h) = ground (
  arith,
  poke_below at bs m p (omega arith),
  peek-poke-Apart at bs m (suc p) n (inr (omega arith)),
)

same_peek : (m₁ m₂ : Memory) (p n : ℕ) → ((i : ℕ) → p ≤ i → m₁ i ≡ m₂ i) → peek m₁ p n ≡ peek m₂ p n
unfolding peek
same_peek m₁ m₂ p zero h = refl
same_peek m₁ m₂ p (suc n) h =
    ground (arith, h p (omega arith), same_peek m₁ m₂ (suc p) n (λ i le. h i (omega arith)))

pub peek-poke_same : (at : ℕ) (bs : Bytes) (m : Memory) → peek (poke at bs m) at (length bs) ≡ bs
unfolding peek poke
peek-poke_same at [] m = refl
peek-poke_same at (b ∷ bs) m =
    let head : poke at (b ∷ bs) m at ≡ b = ground arith in
    let tail : peek (poke at (b ∷ bs) m) (suc at) (length bs)
        ≡ peek (poke (suc at) bs m) (suc at) (length bs) =
      same_peek (poke at (b ∷ bs) m) (poke (suc at) bs m) (suc at) (length bs)
        (λ i le. ground arith) in
    ground (arith, head, tail, peek-poke_same (suc at) bs m)

-- What a written word reads as, and what a write leaves alone.
pub peek-write_u32_le :
    (at val : ℕ) (m : Memory) → peek (write_u32_le at val m) at 4 ≡ le_bytes 4 val
unfolding write_u32_le
peek-write_u32_le at val m =
    subst (λ n. peek (poke at (le_bytes 4 val) m) at n ≡ le_bytes 4 val) (length-le_bytes 4 val)
      (peek-poke_same at (le_bytes 4 val) m)

pub peek-write_u64_le :
    (at val : ℕ) (m : Memory) → peek (write_u64_le at val m) at 8 ≡ le_bytes 8 val
unfolding write_u64_le
peek-write_u64_le at val m =
    subst (λ n. peek (poke at (le_bytes 8 val) m) at n ≡ le_bytes 8 val) (length-le_bytes 8 val)
      (peek-poke_same at (le_bytes 8 val) m)

pub peek-write_u32_le-Apart :
    (at val : ℕ) (m : Memory) (p n : ℕ)
    → Apart at 4 p n
    → peek (write_u32_le at val m) p n ≡ peek m p n
unfolding write_u32_le
peek-write_u32_le-Apart at val m p n h =
    peek-poke-Apart at (le_bytes 4 val) m p n
      (subst (λ k. Apart at k p n) (sym (length-le_bytes 4 val)) h)

pub peek-write_u64_le-Apart :
    (at val : ℕ) (m : Memory) (p n : ℕ)
    → Apart at 8 p n
    → peek (write_u64_le at val m) p n ≡ peek m p n
unfolding write_u64_le
peek-write_u64_le-Apart at val m p n h =
    peek-poke-Apart at (le_bytes 8 val) m p n
      (subst (λ k. Apart at k p n) (sym (length-le_bytes 8 val)) h)

pub read_u32_le-peek :
    (m : Memory) (at val : ℕ) → IsU32 val → peek m at 4 ≡ le_bytes 4 val → read_u32_le m at ≡ val
unfolding read_u32_le
read_u32_le-peek m at val h e = ap from_le e ∙ from_le-le_bytes 4 val (omega arith)

pub read_u64_le-peek :
    (m : Memory) (at val : ℕ) → IsU64 val → peek m at 8 ≡ le_bytes 8 val → read_u64_le m at ≡ val
unfolding read_u64_le
read_u64_le-peek m at val h e = ap from_le e ∙ from_le-le_bytes 8 val (omega arith)
