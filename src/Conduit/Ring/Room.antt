-- ===== src/Conduit/Ring/Room.antt =====
-- When a ring has room for an entry.
use project_bifrost.Base.{
  ℕ, ◌+◌, ◌*◌, ◌/◌, ◌≤◌, ◌<◌, ◌≡◌, refl, arith, sym, ap, ◌∙◌, subst, Option, none, some, List,
  length, Bool, true, false, ◌||◌, leb, if◌then◌else◌,
}
use project_bifrost.Lower.Error.{Result, ok, err}
use project_bifrost.Conduit.Ring.{Entry, Ring, entry_total, push_entry, drain, free, tail_remaining}
use project_bifrost.Conduit.Ring.Held.{Holds, consumed_to}
use project_bifrost.Conduit.Ring.Drain.{drain-Holds}
use native.Mathlib.Nat.{mod-lt}

abbrev pub is_ok : {E A : Type 0} → Result E A → Bool
is_ok (ok a) = true
is_ok (err e) = false

-- The bytes that an entry takes, with those of a pad before it.
abbrev needed : Entry → Ring → ℕ
needed e r =
    let total = entry_total (length e.payload) in
    if leb total (tail_remaining r) then total else tail_remaining r + total

-- A push succeeds exactly when the free bytes have room for the entry and for the pad that it
-- needs when it does not fit before the ring's end.
push_entry-accepts : (e : Entry) (r : Ring) → is_ok (push_entry e r).0 ≡ leb (needed e r) (free r)
unfolding push_entry
push_entry-accepts e r = ground arith

-- An empty ring takes an entry exactly when the entry fits between the cursors and the ring's
-- end, or when the rest of the ring and the entry together are no longer than the ring.
pub push_entry-empty :
    (e : Entry) (r : Ring)
    → r.consumer_pos ≡ r.producer_pos
    → is_ok (push_entry e r).0 ≡ (
        leb (entry_total (length e.payload)) (tail_remaining r)
        || leb (tail_remaining r + entry_total (length e.payload)) r.ring_len)
push_entry-empty e r h = ground (arith, push_entry-accepts e r, nothing_used)
  where
    nothing_used : free r ≡ r.ring_len
    nothing_used = omega arith

-- The ring that a drain leaves.
abbrev left : Ring → Option (List Entry × Ring) → Ring
left r none = r
left r (some (taken, r')) = r'

-- After a drain, with a round for every 16 bytes of the ring and one more, of a ring that holds a
-- queue, a push of an entry that with its header takes at most half of the ring succeeds.
pub drain-push_entry :
    (r : Ring) (queue taken : List Entry) (r' : Ring) (rounds : ℕ) (e : Entry)
    → Holds r queue
    → r.ring_len / 16 < rounds
    → drain rounds r ≡ some (taken, r')
    → 2 * entry_total (length e.payload) ≤ r.ring_len
    → is_ok (push_entry e r').0 ≡ true
drain-push_entry r queue taken r' rounds e h lt d half =
    subst (λ s. is_ok (push_entry e s).0 ≡ true)
      (ap (left r) (sym (drain-Holds r queue h rounds lt) ∙ d))
      (ground (
        arith,
        push_entry-empty e (consumed_to r.producer_pos r) refl,
        mod-lt r.producer_pos h.some_len,
      ))
