-- ===== src/Conduit/Ring/Laid.antt =====
-- The entries that lie in a ring between its cursors.
use project_bifrost.Base.{
  ℕ, ◌+◌, ◌-◌, ◌*◌, ◌%◌, ◌≤◌, ◌<◌, ◌≡◌, arith, ◌∙◌, sym, List, [], ◌∷◌, ◌++◌, length, le_bytes,
  false, ◌==◌, IsU32, IsU64, subst,
}
use project_bifrost.Conduit.Memory.{Memory, peek, Apart}
use project_bifrost.Conduit.Ring.{Entry, entry_total, kind_pad}
use project_bifrost.Conduit.Ring.Offsets.{Apart-within, offsets-Apart}

-- What fills the ring, piece by piece.
pub data Slot : Type 0 where
  pad : Slot
  entry : Entry → Slot

-- An entry that the header can describe and that is not taken for a pad.
abbrev pub Fits : Entry → Type 0
Fits e = IsU32 e.kind × ((e.kind == kind_pad) ≡ false) × IsU64 e.seq × IsU32 (length e.payload)

abbrev pub IsHere : Entry → ℕ → Memory → Type 0
IsHere e at m =
    (peek m at 4 ≡ le_bytes 4 e.kind)
    × (peek m (at + 4) 4 ≡ le_bytes 4 (length e.payload))
    × (peek m (at + 8) 8 ≡ le_bytes 8 e.seq)
    × (peek m (at + 16) (length e.payload) ≡ e.payload)

module _ (off len : ℕ) where
  -- From position `pos` to position `stop` the slots lie one behind the other.
  unfoldable pub IsLaid : Memory → ℕ → List Slot → ℕ → Type 0
  IsLaid m pos [] stop = pos ≡ stop
  IsLaid m pos (pad ∷ slots) stop =
      (peek m (off + pos % len) 4 ≡ le_bytes 4 kind_pad)
      × (pos % len + 16 ≤ len)
      × IsLaid m (pos + (len - pos % len)) slots stop
  IsLaid m pos (entry e ∷ slots) stop =
      Fits e
      × (pos % len + entry_total (length e.payload) ≤ len)
      × IsHere e (off + pos % len) m
      × IsLaid m (pos + entry_total (length e.payload)) slots stop

  pub IsLaid-le :
      (m : Memory) (pos : ℕ) (slots : List Slot) (stop : ℕ)
      → IsLaid m pos slots stop
      → pos + 16 * length slots ≤ stop
  unfolding IsLaid
  IsLaid-le m pos [] stop h = omega arith
  IsLaid-le m pos (pad ∷ slots) stop (h, fit, rest) =
      omega (arith, IsLaid-le m (pos + (len - pos % len)) slots stop rest)
  IsLaid-le m pos (entry e ∷ slots) stop (h, fit, here, rest) =
      omega (arith, IsLaid-le m (pos + entry_total (length e.payload)) slots stop rest)

  pub IsLaid-append :
      (m : Memory) (pos : ℕ) (slots : List Slot) (mid : ℕ) (more : List Slot) (stop : ℕ)
      → IsLaid m pos slots mid
      → IsLaid m mid more stop
      → IsLaid m pos (slots ++ more) stop
  unfolding IsLaid
  IsLaid-append m pos [] mid more stop h k = subst (λ p. IsLaid m p more stop) (sym h) k
  IsLaid-append m pos (pad ∷ slots) mid more stop (h, fit, rest) k =
      (h, fit, IsLaid-append m (pos + (len - pos % len)) slots mid more stop rest k)
  IsLaid-append m pos (entry e ∷ slots) mid more stop (h, fit, here, rest) k = (
    h,
    fit,
    here,
    IsLaid-append m (pos + entry_total (length e.payload)) slots mid more stop rest k,
  )

-- Two memories that differ in `k` bytes from `a` at most.
abbrev pub Agree : Memory → Memory → ℕ → ℕ → Type 0
Agree m m' a k = (p n : ℕ) → Apart a k p n → peek m' p n ≡ peek m p n

pub IsHere-stays :
    (e : Entry) (at : ℕ) (m m' : Memory) (a k : ℕ)
    → Agree m m' a k
    → Apart a k at (entry_total (length e.payload))
    → IsHere e at m
    → IsHere e at m'
IsHere-stays e at m m' a k same apart (kind, size, seq, body) = (
  same at 4 (inside at 4 (omega arith) (omega arith)) ∙ kind,
  same (at + 4) 4 (inside (at + 4) 4 (omega arith) (omega arith)) ∙ size,
  same (at + 8) 8 (inside (at + 8) 8 (omega arith) (omega arith)) ∙ seq,
  same (at + 16) (length e.payload)
        (inside (at + 16) (length e.payload) (omega arith) (omega arith))
      ∙ body,
)
  where
    inside : (c n : ℕ) → at ≤ c → c + n ≤ at + entry_total (length e.payload) → Apart a k c n
    inside c n = Apart-within a k at (entry_total (length e.payload)) c n apart

module _ (off len : ℕ) (pos_len : 0 < len) (m m' : Memory) (q k : ℕ) where
  -- What lies before `q` stays when up to `k` bytes are written there.
  pub IsLaid-stays :
      (pos : ℕ) (slots : List Slot) (stop : ℕ)
      → Agree m m' (off + q % len) k
      → q % len + k ≤ len
      → stop ≤ q
      → q + k ≤ pos + len
      → IsLaid off len m pos slots stop
      → IsLaid off len m' pos slots stop
  unfolding IsLaid
  IsLaid-stays pos [] stop same fit_q after within h = h
  IsLaid-stays pos (pad ∷ slots) stop same fit_q after within (h, fit, rest) = (
    same (off + pos % len) 4 (
          Apart-within (off + q % len) k (off + pos % len) 16 (off + pos % len) 4
            (offsets-Apart off len pos 16 q k pos_len (omega arith) fit fit_q
              (omega (arith, IsLaid-le off len m (pos + (len - pos % len)) slots stop rest)) within)
            (omega arith) (omega arith))
        ∙ h,
    fit,
    IsLaid-stays (pos + (len - pos % len)) slots stop same fit_q after (omega arith) rest,
  )
  IsLaid-stays pos (entry e ∷ slots) stop same fit_q after within (h, fit, here, rest) = (
    h,
    fit,
    IsHere-stays e (off + pos % len) m m' (off + q % len) k same
        (offsets-Apart off len pos (entry_total (length e.payload)) q k pos_len (omega arith) fit
          fit_q
          (omega
            (arith, IsLaid-le off len m (pos + entry_total (length e.payload)) slots stop rest))
          within)
        here,
    IsLaid-stays (pos + entry_total (length e.payload)) slots stop same fit_q after (omega arith)
        rest,
  )
