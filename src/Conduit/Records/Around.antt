-- ===== src/Conduit/Records/Around.antt =====
-- The bytes of a ring by their positions, and the two copies that read them (read_ring_bytes in
-- host/bifrost/src/control_shmem.rs).
use project_bifrost.Base.{
  ℕ, zero, suc, ◌+◌, ◌-◌, ◌%◌, ◌^◌, ◌≤◌, ◌<◌, ◌≡◌, inl, inr, refl, sym, ap, ◌∙◌, arith, [], ◌∷◌,
  ◌++◌, min, Bytes, Option, none, some, Bool-cases, ltb, leb, ◌==◌, ◌||◌, leb→le, if◌then◌else◌,
  true, false, append-nil,
}
use project_bifrost.Conduit.Memory.{Memory, peek}
use project_bifrost.Conduit.Records.{DataShmAttachment, copy_ring, read_ring_bytes, or_empty}
use native.Mathlib.Nat.{mod-lt, mod-eq_of_lt, mod_self, add-mod, mod-mod}
use native.Mathlib.Numerals.{unary_clauses}

-- `k` bytes of the ring of `n` bytes at `off`, from position `p` on.
unfoldable pub around : Memory → ℕ → ℕ → ℕ → ℕ → Bytes
around m off n p zero = []
around m off n p (suc k) = m (off + p % n) ∷ around m off n (suc p) k

around-peek : (m : Memory) (off n r k : ℕ) → r + k ≤ n → around m off n r k ≡ peek m (off + r) k
unfolding around peek
around-peek m off n r zero h = refl
around-peek m off n r (suc k) h =
    ground (
      arith,
      mod-eq_of_lt {n = r} {m = n} (omega arith),
      around-peek m off n (suc r) k (omega arith),
    )

around-+ :
    (m : Memory) (off n p a b : ℕ)
    → around m off n p (a + b) ≡ around m off n p a ++ around m off n (p + a) b
unfolding around
around-+ m off n p zero b = simp unary_clauses (ap (around m off n p) (omega arith))
around-+ m off n p (suc a) b =
    let after : around m off n (suc p) (a + b)
        ≡ around m off n (suc p) a ++ around m off n (p + suc a) b =
      around-+ m off n (suc p) a b
      ∙ ap (λ q. around m off n (suc p) a ++ around m off n q b) (omega arith) in
    let more : suc a + b ≡ suc (a + b) = omega arith in
    ap (around m off n p) more ∙ ap (λ bs. m (off + p % n) ∷ bs) after

suc-mod : (a n : ℕ) → suc a % n ≡ (1 % n + a % n) % n
suc-mod a n = ap (λ b. b % n) (omega arith) ∙ add-mod 1 a n

around-mod :
    (m : Memory) (off n p q k : ℕ) → p % n ≡ q % n → around m off n p k ≡ around m off n q k
unfolding around
around-mod m off n p q zero h = refl
around-mod m off n p q (suc k) h =
    let next : suc p % n ≡ suc q % n =
      suc-mod p n ∙ ap (λ a. (1 % n + a) % n) h ∙ sym (suc-mod q n) in
    ground (arith, h, around-mod m off n (suc p) (suc q) k next)

copy_ring-around :
    (m : Memory) (off n r k : ℕ) → r < n → k ≤ n → copy_ring m off n r k ≡ around m off n r k
unfolding copy_ring
copy_ring-around m off n r k inside fits = elim (Bool-cases (leb k (n - r))) [
  | inl a ↦
      let whole : r + k ≤ n = ground (arith, a) in
      let one : min k (n - r) ≡ k = omega arith in
      let ended : ltb k k ≡ false = ground arith in
      rw (one, ended, around-peek m off n r k whole) (append-nil (peek m (off + r) k))
  | inr a ↦
      let over : n < r + k = ground (arith, a) in
      let one : min k (n - r) ≡ n - r = omega arith in
      let more : ltb (n - r) k ≡ true = ground arith in
      let parts : k ≡ (n - r) + (k - (n - r)) = omega arith in
      let again : (r + (n - r)) % n ≡ 0 % n =
        ap (λ a. a % n) (omega arith)
        ∙ mod_self n
        ∙ sym (mod-eq_of_lt {n = 0} {m = n} (omega arith)) in
      let second : around m off n (r + (n - r)) (k - (n - r)) ≡ peek m off (k - (n - r)) =
        around-mod m off n (r + (n - r)) 0 (k - (n - r)) again
        ∙ around-peek m off n 0 (k - (n - r)) (omega arith)
        ∙ ap (λ a. peek m a (k - (n - r))) (omega arith) in
      rw (one, more)
        (sym (
          ap (around m off n r) parts
          ∙ around-+ m off n r (n - r) (k - (n - r))
          ∙ ap (λ bs. bs ++ around m off n (r + (n - r)) (k - (n - r)))
              (around-peek m off n r (n - r) (omega arith))
          ∙ ap (λ bs. peek m (off + r) (n - r) ++ bs) second))
]

-- What `read_ring_bytes` asks for: a ring inside the memory, and no more bytes than it has.
abbrev pub IsReadable : DataShmAttachment → ℕ → ℕ → ℕ → Type 0
IsReadable shm off len k = (0 < len) × (k ≤ len) × (off + len < 2 ^ 64) × (off + len ≤ shm.size)

abbrev pub Reads : DataShmAttachment → ℕ → ℕ → ℕ → ℕ → Option Bytes → Type 0
Reads shm off len rel k none = ¬ IsReadable shm off len k
Reads shm off len rel k (some bytes) =
    IsReadable shm off len k × (bytes ≡ around shm.base off len rel k)

-- `read_ring_bytes` fails exactly when the ring does not lie inside the memory, is empty, or has
-- fewer bytes than asked for; otherwise its two copies give, byte by byte, the bytes at the
-- positions from `rel` on, each taken modulo the ring's length.
pub read_ring_bytes-Reads :
    (shm : DataShmAttachment) (off len rel k : ℕ)
    → Reads shm off len rel k (read_ring_bytes shm off len rel k)
unfolding read_ring_bytes
read_ring_bytes-Reads shm off len rel k =
    elim (Bool-cases
      (len == 0 || ltb len k || leb (2 ^ 64) (off + len) || ltb shm.size (off + len))) [
        | inl a ↦ rw a (λ (some_len, fits, small, inside). ground (arith, a))
        | inr a ↦ rw a (
          (ground (arith, a), ground (arith, a), ground (arith, a), ground (arith, a)),
          copy_ring-around shm.base off len (rel % len) k (mod-lt rel (ground (arith, a)))
                (ground (arith, a))
              ∙ around-mod shm.base off len (rel % len) rel k (mod-mod rel len),
        )
      ]

or_empty-Reads :
    (shm : DataShmAttachment) (off len rel k : ℕ) (bytes : Option Bytes)
    → 0 < len
    → off + len < 2 ^ 64
    → off + len ≤ shm.size
    → Reads shm off len rel k bytes
    → or_empty bytes ≡ (if leb k len then around shm.base off len rel k else [])
or_empty-Reads shm off len rel k none some_len small inside h = elim (Bool-cases (leb k len)) [
  | inl a ↦ absurd (h (some_len, leb→le k len a, small, inside))
  | inr a ↦ rw a refl
]
or_empty-Reads shm off len rel k (some bytes) some_len small inside (readable, e) =
    let fits : leb k len ≡ true = ground (arith, readable) in rw fits e

pub or_empty-read_ring_bytes :
    (shm : DataShmAttachment) (off len rel k : ℕ)
    → 0 < len
    → off + len < 2 ^ 64
    → off + len ≤ shm.size
    → or_empty (read_ring_bytes shm off len rel k)
      ≡ (if leb k len then around shm.base off len rel k else [])
or_empty-read_ring_bytes shm off len rel k some_len small inside =
    or_empty-Reads shm off len rel k (read_ring_bytes shm off len rel k) some_len small inside
      (read_ring_bytes-Reads shm off len rel k)
