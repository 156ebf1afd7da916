-- ===== src/Conduit/Ring/Push.antt =====
-- What `push_entry` does to the queue that a ring holds.
use project_bifrost.Base.{
  ℕ, ◌+◌, ◌-◌, ◌%◌, ◌^◌, ◌≤◌, ◌<◌, ◌≡◌, inl, inr, refl, arith, ◌∙◌, ap, sym, subst, List, [], ◌∷◌,
  ◌++◌, length, Bool-cases, ltb,
}
use project_bifrost.Lower.Error.{Result, ok, err}
use project_bifrost.Conduit.Memory.{Memory}
use project_bifrost.Conduit.Ring.{
  Entry, Ring, entry_total, write_entry, write_pad, produce, wrapping_add, wrapping_sub, push_entry,
  free, tail_remaining,
}
use project_bifrost.Conduit.Ring.Laid.{Slot, pad, entry, Fits, IsLaid, IsLaid-le}
use project_bifrost.Conduit.Ring.Writes.{IsLaid-write_entry, IsLaid-write_pad}
use project_bifrost.Conduit.Ring.Held.{Holds, entries, entries-append_pad, entries-append_entry}
use project_bifrost.Conduit.Ring.Offsets.{offset-tail, offset_aligned}
use native.Mathlib.Nat.{mod-lt}

-- The entry is behind the queue and the consumer's cursor where it was, or the whole ring is as
-- it was.
abbrev pub Appends : {E : Type 0} → Entry → List Entry → Ring → Result E (Unit {0}) × Ring → Type 0
Appends e queue r (ok u, r') =
    Holds r' (queue ++ e ∷ []) × (r'.ring_len ≡ r.ring_len) × (r'.consumer_pos ≡ r.consumer_pos)
Appends e queue r (err x, r') = r' ≡ r

module _ (e : Entry) (queue : List Entry) (r : Ring) (h : Holds r queue) (fits : Fits e) where
  open r use {memory, ring_off, ring_len, producer_pos, consumer_pos}

  abbrev total : ℕ
  total = entry_total (length e.payload)

  abbrev tail : ℕ
  tail = tail_remaining r

  used_lem : wrapping_sub producer_pos consumer_pos ≡ producer_pos - consumer_pos
  used_lem = omega (
    arith,
    h.no_wrap,
    IsLaid-le ring_off ring_len memory consumer_pos h.slots producer_pos h.laid,
  )

  head_aligned : (producer_pos % ring_len) % 16 ≡ 0
  head_aligned = offset_aligned ring_len producer_pos h.len_aligned h.pos_aligned

  in_tail : producer_pos % ring_len < ring_len
  in_tail = mod-lt producer_pos h.some_len

  -- The ring once `n` bytes behind the last slot are taken.
  advanced :
      (m : Memory) (n : ℕ) (slots : List Slot)
      → n % 16 ≡ 0
      → n ≤ free r
      → producer_pos + ring_len < 2 ^ 64
      → IsLaid ring_off ring_len m consumer_pos slots (producer_pos + n)
      → entries slots ≡ queue ++ e ∷ []
      → Holds (produce n (record r { memory = m })) (queue ++ e ∷ [])
  advanced m n slots aligned room bound laid same = record {
    slots = slots;
    laid = subst (λ p. IsLaid ring_off ring_len m consumer_pos slots p) (sym no_round) laid;
    same = same;
    some_len = h.some_len;
    len_aligned = h.len_aligned;
    pos_aligned = omega (arith, no_round, h.pos_aligned);
    within = omega (arith, no_round, used_lem, h.within);
    no_wrap = omega (arith, no_round);
  }
    where
      no_round : wrapping_add producer_pos n ≡ producer_pos + n
      no_round = omega arith

  behind :
      total ≤ tail
      → total ≤ free r
      → producer_pos + ring_len < 2 ^ 64
      → Holds (produce total (write_entry (producer_pos % ring_len) e r)) (queue ++ e ∷ [])
  unfolding write_entry
  behind fit room bound =
      advanced (write_entry (producer_pos % ring_len) e r).memory total (h.slots ++ entry e ∷ [])
        (omega arith) room bound
        (IsLaid-write_entry ring_off ring_len h.some_len r refl e consumer_pos h.slots producer_pos
          (producer_pos % ring_len) fits refl (omega (arith, in_tail))
          (omega (arith, used_lem, h.within)) h.laid)
        (entries-append_entry h.slots e ∙ ap (λ t. t ++ e ∷ []) h.same)

  behind_pad :
      total ≤ ring_len
      → tail + total ≤ free r
      → producer_pos + ring_len < 2 ^ 64
      → Holds
          (produce (tail + total) (write_entry 0 e (write_pad (producer_pos % ring_len) tail r)))
          (queue ++ e ∷ [])
  unfolding write_entry write_pad
  behind_pad fit room bound =
      advanced (write_entry 0 e padded).memory (tail + total)
        ((h.slots ++ pad ∷ []) ++ entry e ∷ []) (omega (arith, head_aligned, h.len_aligned)) room
        bound
        (subst
          (λ p.
            IsLaid ring_off ring_len (write_entry 0 e padded).memory consumer_pos
              ((h.slots ++ pad ∷ []) ++ entry e ∷ []) p)
          (omega arith)
          (IsLaid-write_entry ring_off ring_len h.some_len padded refl e consumer_pos
            (h.slots ++ pad ∷ []) (producer_pos + tail) 0 fits
            (sym (offset-tail ring_len producer_pos h.some_len)) (omega arith)
            (omega (arith, used_lem, h.within))
            (IsLaid-write_pad ring_off ring_len h.some_len r refl consumer_pos h.slots producer_pos
              (omega (arith, in_tail, head_aligned, h.len_aligned))
              (omega (arith, used_lem, h.within)) h.laid)))
        (entries-append_entry (h.slots ++ pad ∷ []) e
          ∙ ap (λ t. t ++ e ∷ []) (entries-append_pad h.slots ∙ h.same))
    where
      padded : Ring
      padded = write_pad (producer_pos % ring_len) tail r

  -- An entry that its header can describe, pushed on a ring that holds a queue and whose
  -- producer's cursor does not go round at 2 ^ 64, is behind the queue, or the push fails and
  -- the ring is as it was.
  pub push_entry-Appends : producer_pos + ring_len < 2 ^ 64 → Appends e queue r (push_entry e r)
  unfolding push_entry write_entry write_pad
  push_entry-Appends bound = elim (Bool-cases (ltb ring_len total)) [
    | inl a ↦ rw a refl
    | inr a ↦ elim (Bool-cases (ltb tail total)) [
      | inl b ↦ elim (Bool-cases (ltb (free r) (tail + total))) [
        | inl c ↦ rw (a, b, c) refl
        | inr c ↦
            rw (a, b, c) (behind_pad (ground (arith, a)) (ground (arith, c)) bound, refl, refl)
      ]
      | inr b ↦ elim (Bool-cases (ltb (free r) total)) [
        | inl c ↦ rw (a, b, c) refl
        | inr c ↦ rw (a, b, c) (behind (ground (arith, b)) (ground (arith, c)) bound, refl, refl)
      ]
    ]
  ]
