-- ===== src/Conduit/Ring/Drain.antt =====
-- The consumers of a ring take the queue that it holds.
use project_bifrost.Base.{
  ℕ, zero, suc, ◌+◌, ◌-◌, ◌/◌, ◌%◌, ◌^◌, ◌≤◌, ◌<◌, ◌≡◌, refl, arith, ◌∙◌, ap, some, List, [], ◌∷◌,
  length,
}
use project_bifrost.Conduit.Memory.{read_u32_le-peek, read_u64_le-peek}
use project_bifrost.Conduit.Ring.{
  Entry, Ring, idle, skipped, taken, entry_total, kind_pad, consume, read_entry, drain, emit,
  wrapping_add,
}
use project_bifrost.Conduit.Ring.Laid.{Slot, pad, entry, IsLaid, IsLaid-le}
use project_bifrost.Conduit.Ring.Held.{Holds, entries, consumed_to, holding}

abbrev pub Lies : Ring → List Slot → Type 0
Lies r slots = IsLaid r.ring_off r.ring_len r.memory r.consumer_pos slots r.producer_pos

module _ (r : Ring) (no_wrap : r.producer_pos < 2 ^ 64) where
  open r use {memory, ring_off, ring_len, producer_pos, consumer_pos}

  pub read_entry-idle : consumer_pos ≡ producer_pos → read_entry r ≡ idle
  unfolding read_entry
  read_entry-idle h = ground arith

  no_round :
      (n : ℕ) → consumer_pos + n ≤ producer_pos → consume n r ≡ consumed_to (consumer_pos + n) r
  no_round n le =
      ap (λ p. consumed_to p r)
        (let small : wrapping_add consumer_pos n ≡ consumer_pos + n = omega arith in small)

  pub read_entry-pad :
      (slots : List Slot)
      → Lies r (pad ∷ slots)
      → read_entry r ≡ skipped (consumed_to (consumer_pos + (ring_len - consumer_pos % ring_len)) r)
  unfolding IsLaid read_entry
  read_entry-pad slots (kind, fit, rest) = ground (
    arith,
    IsLaid-le ring_off ring_len memory (consumer_pos + (ring_len - consumer_pos % ring_len)) slots
        producer_pos rest,
    no_round (ring_len - consumer_pos % ring_len),
    read_u32_le-peek memory (ring_off + consumer_pos % ring_len) kind_pad (omega arith) kind,
  )

  pub read_entry-entry :
      (e : Entry) (slots : List Slot)
      → Lies r (entry e ∷ slots)
      → read_entry r ≡ taken e (consumed_to (consumer_pos + entry_total (length e.payload)) r)
  unfolding IsLaid read_entry
  read_entry-entry e slots
        ((kind, not_pad, seq, size), fit, (at_kind, at_len, at_seq, body), rest) =
      ground (
        arith,
        lt_producer,
        no_round (entry_total (length e.payload)),
        read_u32_le-peek memory at e.kind kind at_kind,
        read_u32_le-peek memory (at + 4) (length e.payload) size at_len,
        read_u64_le-peek memory (at + 8) e.seq seq at_seq,
        body,
        not_pad,
      )
    where
      at : ℕ
      at = ring_off + consumer_pos % ring_len

      lt_producer : consumer_pos + entry_total (length e.payload) ≤ producer_pos
      lt_producer = omega (
        arith,
        IsLaid-le ring_off ring_len memory (consumer_pos + entry_total (length e.payload)) slots
            producer_pos rest,
      )

-- What is behind the first slot.
pub rest-pad :
    (r : Ring) (slots : List Slot)
    → Lies r (pad ∷ slots)
    → Lies (consumed_to (r.consumer_pos + (r.ring_len - r.consumer_pos % r.ring_len)) r) slots
unfolding IsLaid
rest-pad r slots (h, fit, rest) = rest

pub rest-entry :
    (r : Ring) (e : Entry) (slots : List Slot)
    → Lies r (entry e ∷ slots)
    → Lies (consumed_to (r.consumer_pos + entry_total (length e.payload)) r) slots
unfolding IsLaid
rest-entry r e slots (h, fit, here, rest) = rest

-- A ring that holds a queue gives all of it, in order, and is empty then, when there is a round
-- for each slot and one more.
drain-laid :
    (slots : List Slot) (r : Ring) (rounds : ℕ)
    → r.producer_pos < 2 ^ 64
    → Lies r slots
    → length slots < rounds
    → drain rounds r ≡ some (entries slots, consumed_to r.producer_pos r)
unfolding drain IsLaid
drain-laid slots r zero no_wrap lies lt = absurd (omega arith)
drain-laid [] r (suc rounds) no_wrap lies lt =
    rw (read_entry-idle r no_wrap lies, drain) (ap (λ p. some ([], consumed_to p r)) lies)
drain-laid (pad ∷ slots) r (suc rounds) no_wrap lies lt =
    rw (read_entry-pad r no_wrap slots lies, drain)
      (drain-laid slots _ rounds no_wrap (rest-pad r slots lies) (omega arith))
drain-laid (entry e ∷ slots) r (suc rounds) no_wrap lies lt =
    rw (read_entry-entry r no_wrap e slots lies, drain)
      (ap (emit e) (drain-laid slots _ rounds no_wrap (rest-entry r e slots lies) (omega arith)))

module _ (r : Ring) (queue : List Entry) (h : Holds r queue) where
  -- A ring holds no more slots than headers have room in it.
  pub slots_fit : length h.slots ≤ r.ring_len / 16
  slots_fit = omega (
    arith,
    IsLaid-le r.ring_off r.ring_len r.memory r.consumer_pos h.slots r.producer_pos h.laid,
    h.within,
  )

  -- `drain_cmds` and `drain_rsp_ring` end, with a round for every 16 bytes of the ring and one
  -- more, and give the whole queue that the ring holds, in order; the ring is empty then.
  pub drain-Holds :
      (rounds : ℕ)
      → r.ring_len / 16 < rounds
      → drain rounds r ≡ some (queue, consumed_to r.producer_pos r)
  drain-Holds rounds lt =
      drain-laid h.slots r rounds h.no_wrap h.laid (omega (arith, slots_fit))
      ∙ ap (λ q. some (q, consumed_to r.producer_pos r)) h.same

  -- The ring that is left holds nothing.
  pub drained-Holds : Holds (consumed_to r.producer_pos r) []
  unfolding IsLaid
  drained-Holds =
      holding (consumed_to r.producer_pos r) []
        (h.some_len, h.len_aligned, h.pos_aligned, omega arith, h.no_wrap) refl
