-- ===== src/Conduit/Ring/Held.antt =====
-- A ring that holds a queue of entries.
use project_bifrost.Base.{ℕ, ◌+◌, ◌%◌, ◌^◌, ◌≤◌, ◌<◌, ◌≡◌, refl, ap, arith, List, [], ◌∷◌, ◌++◌}
use project_bifrost.Conduit.Ring.{Entry, Ring}
use project_bifrost.Conduit.Ring.Laid.{Slot, pad, entry, IsLaid}

-- The slots without the pads.
abbrev pub entries : List Slot → List Entry
entries [] = []
entries (pad ∷ slots) = entries slots
entries (entry e ∷ slots) = e ∷ entries slots

pub entries-append_pad : (slots : List Slot) → entries (slots ++ pad ∷ []) ≡ entries slots
entries-append_pad [] = refl
entries-append_pad (pad ∷ slots) = entries-append_pad slots
entries-append_pad (entry e ∷ slots) = ap (λ t. e ∷ t) (entries-append_pad slots)

pub entries-append_entry :
    (slots : List Slot) (e : Entry) → entries (slots ++ entry e ∷ []) ≡ entries slots ++ e ∷ []
entries-append_entry [] e = refl
entries-append_entry (pad ∷ slots) e = entries-append_entry slots e
entries-append_entry (entry d ∷ slots) e = ap (λ t. d ∷ t) (entries-append_entry slots e)

-- Between the cursors lie the entries of `queue` in order; the ring and the producer's position
-- are aligned, and no cursor has gone round at 2 ^ 64.
pub record Holds (r : Ring) (queue : List Entry) : Type 0 where
  pub slots : List Slot
  pub laid : IsLaid r.ring_off r.ring_len r.memory r.consumer_pos slots r.producer_pos
  pub same : entries slots ≡ queue
  pub some_len : 0 < r.ring_len
  pub len_aligned : r.ring_len % 16 ≡ 0
  pub pos_aligned : r.producer_pos % 16 ≡ 0
  pub within : r.producer_pos ≤ r.consumer_pos + r.ring_len
  pub no_wrap : r.producer_pos < 2 ^ 64

-- The facts of `Holds` on the ring alone.
abbrev pub IsSteady : Ring → Type 0
IsSteady r =
    (0 < r.ring_len)
    × (r.ring_len % 16 ≡ 0)
    × (r.producer_pos % 16 ≡ 0)
    × (r.producer_pos ≤ r.consumer_pos + r.ring_len)
    × (r.producer_pos < 2 ^ 64)

pub holding :
    (r : Ring) (slots : List Slot)
    → IsSteady r
    → IsLaid r.ring_off r.ring_len r.memory r.consumer_pos slots r.producer_pos
    → Holds r (entries slots)
holding r slots (some_len, len_aligned, pos_aligned, within, no_wrap) laid = record {
  slots = slots;
  laid = laid;
  same = refl;
  some_len = some_len;
  len_aligned = len_aligned;
  pos_aligned = pos_aligned;
  within = within;
  no_wrap = no_wrap;
}

pub Holds-IsSteady : (r : Ring) (queue : List Entry) → Holds r queue → IsSteady r
Holds-IsSteady r queue h = (h.some_len, h.len_aligned, h.pos_aligned, h.within, h.no_wrap)

-- The ring once its consumer is at `pos`.
abbrev pub consumed_to : ℕ → Ring → Ring
consumed_to pos r = record r { consumer_pos = pos }

pub consumed_to-IsSteady :
    (r : Ring) (n : ℕ) → IsSteady r → IsSteady (consumed_to (r.consumer_pos + n) r)
consumed_to-IsSteady r n (some_len, len_aligned, pos_aligned, within, no_wrap) =
    (some_len, len_aligned, pos_aligned, omega arith, no_wrap)
