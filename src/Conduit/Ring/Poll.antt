-- ===== src/Conduit/Ring/Poll.antt =====
-- `poll_rsp` looks in the queue for an answer.
use project_bifrost.Base.{
  ℕ, zero, suc, ◌/◌, ◌<◌, ◌≡◌, refl, arith, sym, inl, inr, subst, Option, none, some, List, [], ◌∷◌,
  length, Bool-cases, true, false, if◌then◌else◌,
}
use project_bifrost.Lower.Error.{Result, ok}
use project_bifrost.Conduit.Ring.{Entry, Ring, read_entry, idle, PollError, poll_rsp, is_unwanted}
use project_bifrost.Conduit.Ring.Laid.{Slot, pad, entry, IsLaid}
use project_bifrost.Conduit.Ring.Held.{
  Holds, entries, IsSteady, Holds-IsSteady, holding, consumed_to-IsSteady,
}
use project_bifrost.Conduit.Ring.Drain.{
  Lies, rest-pad, rest-entry, read_entry-idle, read_entry-pad, read_entry-entry, slots_fit,
}

-- The first entry that is wanted, and what is behind it; those before it are dropped.
unfoldable answer : Option ℕ → List Entry → Option Entry × List Entry
answer wanted [] = (none, [])
answer wanted (e ∷ queue) =
    let rest = answer wanted queue in if is_unwanted wanted e.seq then rest else (some e, queue)

abbrev Answers : Option Entry × List Entry → Result PollError (Option Entry) × Ring → Type 0
Answers (found, queue) (result, r) = (result ≡ ok found) × Holds r queue

poll_rsp-idle :
    (rounds : ℕ) (wanted : Option ℕ) (r : Ring)
    → read_entry r ≡ idle
    → poll_rsp rounds wanted r ≡ (ok none, r)
unfolding poll_rsp
poll_rsp-idle zero wanted r h = refl
poll_rsp-idle (suc rounds) wanted r h = rw (h, poll_rsp) (poll_rsp-idle rounds wanted r h)

poll_rsp-laid :
    (wanted : Option ℕ) (slots : List Slot) (r : Ring) (rounds : ℕ)
    → IsSteady r
    → Lies r slots
    → length slots < rounds
    → Answers (answer wanted (entries slots)) (poll_rsp rounds wanted r)
unfolding poll_rsp answer IsLaid
poll_rsp-laid wanted slots r zero steady lies lt = absurd (omega arith)
poll_rsp-laid wanted [] r (suc rounds) steady lies lt =
    subst (λ t. Answers (none, []) t)
      (sym (poll_rsp-idle (suc rounds) wanted r (read_entry-idle r steady.4 lies)))
      (refl, holding r [] steady lies)
poll_rsp-laid wanted (pad ∷ slots) r (suc rounds) steady lies lt =
    rw (read_entry-pad r steady.4 slots lies, poll_rsp)
      (poll_rsp-laid wanted slots _ rounds (consumed_to-IsSteady r _ steady) (rest-pad r slots lies)
        (omega arith))
poll_rsp-laid wanted (entry e ∷ slots) r (suc rounds) steady lies lt =
    elim (Bool-cases (is_unwanted wanted e.seq)) [
      | inl a ↦
          rw (read_entry-entry r steady.4 e slots lies, poll_rsp, a)
            (poll_rsp-laid wanted slots _ rounds (consumed_to-IsSteady r _ steady)
              (rest-entry r e slots lies) (omega arith))
      | inr a ↦
          rw (read_entry-entry r steady.4 e slots lies, poll_rsp, a)
            (refl, holding _ slots (consumed_to-IsSteady r _ steady) (rest-entry r e slots lies))
    ]

-- The entry that is asked for: the one with this sequence number, or any.
abbrev pub Matches : Option ℕ → Entry → Type 0
Matches none e = Unit {0}
Matches (some seq) e = e.seq ≡ seq

-- What is found in a queue, and the queue behind it.
pub data Finds (wanted : Option ℕ) : List Entry → Option Entry → List Entry → Type 0 where
  nothing : Finds wanted [] none []
  this :
      {e : Entry} {queue : List Entry} → Matches wanted e → Finds wanted (e ∷ queue) (some e) queue
  dropped :
      {e : Entry} {queue left : List Entry} {found : Option Entry}
      → ¬ Matches wanted e
      → Finds wanted queue found left
      → Finds wanted (e ∷ queue) found left

Matches-is_unwanted :
    (wanted : Option ℕ) (e : Entry) → is_unwanted wanted e.seq ≡ false → Matches wanted e
Matches-is_unwanted none e h = tt
Matches-is_unwanted (some seq) e h = ground (arith, h)

not_Matches : (wanted : Option ℕ) (e : Entry) → is_unwanted wanted e.seq ≡ true → ¬ Matches wanted e
not_Matches none e h = cc
not_Matches (some seq) e h = λ same. ground (arith, h, same)

answer-Finds :
    (wanted : Option ℕ) (queue : List Entry)
    → Finds wanted queue (answer wanted queue).0 (answer wanted queue).1
unfolding answer
answer-Finds wanted [] = nothing
answer-Finds wanted (e ∷ queue) = elim (Bool-cases (is_unwanted wanted e.seq)) [
  | inl a ↦ rw a (dropped (not_Matches wanted e a) (answer-Finds wanted queue))
  | inr a ↦ rw a (this (Matches-is_unwanted wanted e a))
]

-- On a ring that holds a queue, with more rounds before the deadline than the ring has 16 bytes,
-- `poll_rsp` gives the first entry with the wanted sequence number, or the first of all when
-- none is wanted, and leaves the entries behind it; the entries before it are dropped. Without
-- such an entry it gives nothing, and all are dropped.
pub poll_rsp-Holds :
    (r : Ring) (queue : List Entry) (wanted : Option ℕ) (rounds : ℕ)
    → Holds r queue
    → r.ring_len / 16 < rounds
    → (found : Option Entry) × (left : List Entry) × Finds wanted queue found left
      × ((poll_rsp rounds wanted r).0 ≡ ok found)
      × Holds (poll_rsp rounds wanted r).1 left
poll_rsp-Holds r queue wanted rounds h lt =
    let answers : Answers (answer wanted queue) (poll_rsp rounds wanted r) =
      subst (λ q. Answers (answer wanted q) (poll_rsp rounds wanted r)) h.same
        (poll_rsp-laid wanted h.slots r rounds (Holds-IsSteady r queue h) h.laid
          (omega (arith, slots_fit r queue h))) in
    (
      (answer wanted queue).0,
      (answer wanted queue).1,
      answer-Finds wanted queue,
      answers.0,
      answers.1,
    )
