-- ===== src/Conduit/Ring/Trace.antt =====
-- A producer and a consumer of one ring that take turns in any order.
use project_bifrost.Base.{
  ◌+◌, ◌*◌, ◌^◌, ◌≤◌, ◌<◌, ◌≡◌, refl, arith, sym, ap, ◌∙◌, subst, List, [], ◌∷◌, ◌++◌, append_assoc,
  append-nil, length,
}
use project_bifrost.Lower.Error.{Result, ok, err}
use project_bifrost.Conduit.Ring.{
  Entry, Ring, idle, skipped, overrun, taken, PushError, push_entry, read_entry, entry_total,
}
use project_bifrost.Conduit.Ring.Laid.{IsLaid-le, IsLaid, Fits, Slot, pad, entry}
use project_bifrost.Conduit.Ring.Held.{
  Holds, entries, consumed_to, IsSteady, Holds-IsSteady, holding, consumed_to-IsSteady,
}
use native.Mathlib.Nat.{suc-mul}
use project_bifrost.Conduit.Ring.Push.{Appends, push_entry-Appends}
use project_bifrost.Conduit.Ring.Drain.{
  Lies, read_entry-idle, read_entry-pad, read_entry-entry, rest-pad, rest-entry,
}

-- A turn: a push, or one round of a consumer's loop.
pub data Turn : Type 0 where
  push : Entry → Turn
  round : Turn

-- The entries that were accepted, those that were taken, and the ring after the turns.
pub record Trace : Type 0 where
  pub accepted : List Entry
  pub received : List Entry
  pub ring : Ring

abbrev accept : Entry → Trace → Trace
accept e t = record t { accepted = e ∷ t.accepted }

abbrev receive : Entry → Trace → Trace
receive e t = record t { received = e ∷ t.received }

unfoldable pub run : List Turn → Ring → Trace
run [] r = record { accepted = []; received = []; ring = r }
run (push e ∷ turns) r =
    let (result, r') = push_entry e r in
    elim result [ ok u ↦ accept e (run turns r') | err x ↦ run turns r' ]
run (round ∷ turns) r = elim (read_entry r) [
  | idle ↦ run turns r
  | skipped r' ↦ run turns r'
  | overrun head_off len ring_len ↦ run turns r
  | taken e r' ↦ receive e (run turns r')
]

abbrev pub AllFit : List Turn → Type 0
AllFit [] = Unit {0}
AllFit (push e ∷ turns) = Fits e × AllFit turns
AllFit (round ∷ turns) = AllFit turns

-- What went in is what came out and what the ring still holds, in order.
pub record Keeps (queue : List Entry) (t : Trace) : Type 0 where
  pub rest : List Entry
  pub holds : Holds t.ring rest
  pub in_order : queue ++ t.accepted ≡ t.received ++ rest

module _ (turns : List Turn) (r : Ring) where
  -- What the turns that follow keep, whatever the ring they find.
  abbrev Later : Type 0
  Later =
      (r' : Ring) (queue : List Entry)
      → Holds r' queue
      → r'.producer_pos ≤ r.producer_pos + r.ring_len
      → r'.ring_len ≡ r.ring_len
      → Keeps queue (run turns r')

  push-Keeps :
      (e : Entry) (queue : List Entry) (pushed : Result PushError (Unit {0}) × Ring)
      → Holds r queue
      → Appends e queue r pushed
      → Later
      → Keeps queue
          (elim (pushed.0) [ ok u ↦ accept e (run turns pushed.1) | err x ↦ run turns pushed.1 ])
  push-Keeps e queue (ok u, r') h (h', same_len, same_pos) later = record {
    rest = kept.rest;
    holds = kept.holds;
    in_order = sym (append_assoc queue (e ∷ []) (run turns r').accepted) ∙ kept.in_order;
  }
    where
      bounded : r.consumer_pos + 16 * length h.slots ≤ r.producer_pos
      bounded =
          IsLaid-le r.ring_off r.ring_len r.memory r.consumer_pos h.slots r.producer_pos h.laid

      kept : Keeps (queue ++ e ∷ []) (run turns r')
      kept =
          later r' (queue ++ e ∷ []) h' (omega (arith, h'.within, same_len, same_pos, bounded))
            same_len
  push-Keeps e queue (err x, r') h stays later =
      subst (λ s. Keeps queue (run turns s)) (sym stays) (later r queue h (omega arith) refl)

  round-Keeps :
      (slots : List Slot)
      → IsSteady r
      → Lies r slots
      → Later
      → Keeps (entries slots) (run (round ∷ turns) r)
  unfolding run IsLaid
  round-Keeps [] steady lies later =
      rw (read_entry-idle r steady.4 lies, run)
        (later r [] (holding r [] steady lies) (omega arith) refl)
  round-Keeps (pad ∷ slots) steady lies later =
      rw (read_entry-pad r steady.4 slots lies, run)
        (later _ (entries slots)
          (holding _ slots (consumed_to-IsSteady r _ steady) (rest-pad r slots lies)) (omega arith)
          refl)
  round-Keeps (entry e ∷ slots) steady lies later =
      rw (read_entry-entry r steady.4 e slots lies, run)
        (record { rest = kept.rest; holds = kept.holds; in_order = ap (λ q. e ∷ q) kept.in_order })
    where
      after : Ring
      after = consumed_to (r.consumer_pos + entry_total (length e.payload)) r

      kept : Keeps (entries slots) (run turns after)
      kept =
          later after (entries slots)
            (holding after slots (consumed_to-IsSteady r _ steady) (rest-entry r e slots lies))
            (omega arith) refl

-- Turns in any order keep every entry: those that the ring held and those that were accepted
-- later are, in this order, those that were taken followed by those that the ring holds then.
-- The turns push entries that their headers can describe, and the cursors do not go round at
-- 2 ^ 64.
pub run-Keeps :
    (turns : List Turn) (r : Ring) (queue : List Entry)
    → Holds r queue
    → AllFit turns
    → r.producer_pos + length turns * r.ring_len + r.ring_len < 2 ^ 64
    → Keeps queue (run turns r)
unfolding run
run-Keeps [] r queue h fit room = record { rest = queue; holds = h; in_order = append-nil queue }
run-Keeps (push e ∷ turns) r queue h (fits, fit) room =
    push-Keeps turns r e queue (push_entry e r) h
      (push_entry-Appends e queue r h fits (omega arith))
      (λ r' q h' le same.
        run-Keeps turns r' q h' fit (ground (arith, suc-mul (length turns) r.ring_len)))
run-Keeps (round ∷ turns) r queue h fit room =
    subst (λ q. Keeps q (run (round ∷ turns) r)) h.same
      (round-Keeps turns r h.slots (Holds-IsSteady r queue h) h.laid (λ r' q h' le same.
        run-Keeps turns r' q h' fit (ground (arith, suc-mul (length turns) r.ring_len))))
