-- ===== src/Host/Merge/Drain.antt =====
-- What `drain_eligible` gives out and what it leaves.
use project_bifrost.Base.{
  ℕ, zero, suc, ◌+◌, ◌-◌, ◌≤◌, ◌<◌, ◌≡◌, inl, inr, refl, arith, ap, sym, ◌∙◌, subst, List, [], ◌∷◌,
  ◌++◌, map, none, some, length, All, Bool, true, false, ltb, ◌==◌, if◌then◌else◌, Bool-cases,
}
use project_bifrost.Host.Merge.{
  TaggedRecord, SourceState, MergedRing, Best, Drained, pick_from, pop_front, pending, tail_of,
  emit, drain_until, drain_eligible,
}
use project_bifrost.Host.Merge.Pick.{
  IsHead, IsHeadAt, IsBy, pick_from-head, pick_from-IsHeadAt, pick_from-none, pending-pop_front,
}

unfoldable pub queue_at : ℕ → List SourceState → List TaggedRecord
queue_at k [] = []
queue_at zero (s ∷ ss) = s.queue
queue_at (suc k) (s ∷ ss) = queue_at k ss

-- The records that came from the source at `k`.
unfoldable pub from : ℕ → List (ℕ × TaggedRecord) → List TaggedRecord
from k [] = []
from k (t ∷ ts) = let rest = from k ts in if t.0 == k then t.1 ∷ rest else rest

-- Each record of `out` is from one source, and what is from a source, in order, followed by what
-- the source has left, is what it had.
pub record IsMerge (ss : List SourceState) (out : List TaggedRecord) (ss' : List SourceState)
    : Type 0 where
  pub tagged : List (ℕ × TaggedRecord)
  pub all_tagged : out ≡ map (λ t. t.1) tagged
  pub per_source : (k : ℕ) → queue_at k ss ≡ from k tagged ++ queue_at k ss'
  pub counted : pending ss ≡ length out + pending ss'

abbrev pub IsWaiting : ℕ → List SourceState → Type 0
IsWaiting cutoff ss = (k : ℕ) (h : TaggedRecord) → IsHeadAt k h ss → cutoff < h.gns

abbrev pub Delivers : ℕ → List SourceState → Drained → Type 0
Delivers cutoff ss none = ⊥
Delivers cutoff ss (some (out, ss')) =
    IsMerge ss out ss' × All (λ (r : TaggedRecord). r.gns ≤ cutoff) out × IsWaiting cutoff ss'

-- The loop once the best head is known.
abbrev pub after : ℕ → ℕ → List SourceState → Best → Drained
after cutoff rounds ss none = some ([], ss)
after cutoff rounds ss (some (i, h)) =
    if ltb cutoff h.gns then some ([], ss) else emit h (drain_until cutoff rounds (pop_front i ss))

pub drain_until-after :
    (cutoff rounds : ℕ) (ss : List SourceState)
    → drain_until cutoff (suc rounds) ss ≡ after cutoff rounds ss (pick_from 0 none ss)
unfolding drain_until
drain_until-after cutoff rounds ss = same_after (pick_from 0 none ss)
  where
    same_after :
        (p : Best)
        → elim p [
          | none ↦ some ([], ss)
          | some best ↦
              if ltb cutoff best.1.gns
              then some ([], ss)
              else emit best.1 (drain_until cutoff rounds (pop_front best.0 ss))
        ]
          ≡ after cutoff rounds ss p
    same_after none = refl
    same_after (some (i, h)) = refl

queue_at-pop_front :
    (ss : List SourceState) (j k : ℕ) (h : TaggedRecord)
    → IsHeadAt j h ss
    → queue_at k ss
      ≡ (if j == k then h ∷ queue_at k (pop_front j ss) else queue_at k (pop_front j ss))
unfolding queue_at pop_front IsHeadAt
queue_at-pop_front [] j k h at = absurd at
queue_at-pop_front (s ∷ ss) zero zero h at = first s.queue at
  where
    first : (queue : List TaggedRecord) → IsHead h queue → queue ≡ h ∷ tail_of queue
    first [] a = absurd a
    first (x ∷ xs) a = ap (λ t. t ∷ xs) a
queue_at-pop_front (s ∷ ss) zero (suc k) h at = ground arith
queue_at-pop_front (s ∷ ss) (suc j) zero h at = ground arith
queue_at-pop_front (s ∷ ss) (suc j) (suc k) h at = ground (arith, queue_at-pop_front ss j k h at)

stopped :
    (cutoff : ℕ) (ss : List SourceState) → IsWaiting cutoff ss → Delivers cutoff ss (some ([], ss))
unfolding from
stopped cutoff ss waiting = (
  record { tagged = []; all_tagged = refl; per_source = λ k. refl; counted = omega arith },
  tt,
  waiting,
)

one_taken :
    (from_here : Bool) (h : TaggedRecord) (rest queue popped left : List TaggedRecord)
    → queue ≡ (if from_here then h ∷ popped else popped)
    → popped ≡ rest ++ left
    → queue ≡ (if from_here then h ∷ rest else rest) ++ left
one_taken true h rest queue popped left e ih = e ∙ ap (λ q. h ∷ q) ih
one_taken false h rest queue popped left e ih = e ∙ ih

one_more :
    (cutoff j : ℕ) (h : TaggedRecord) (ss : List SourceState) (d : Drained)
    → IsHeadAt j h ss
    → h.gns ≤ cutoff
    → Delivers cutoff (pop_front j ss) d
    → Delivers cutoff ss (emit h d)
unfolding from
one_more cutoff j h ss none at le d = absurd d
one_more cutoff j h ss (some (out, ss')) at le (m, below, waiting) = (
  record {
    tagged = (j, h) ∷ m.tagged;
    all_tagged = ap (λ t. h ∷ t) m.all_tagged;
    per_source = λ k.
        one_taken (j == k) h (from k m.tagged) _ _ _ (queue_at-pop_front ss j k h at)
          (m.per_source k);
    counted = omega (arith, pending-pop_front ss j h at, m.counted);
  },
  (le, below),
  waiting,
)

no_head : (ss : List SourceState) (k : ℕ) (h : TaggedRecord) → pending ss ≡ 0 → IsHeadAt k h ss → ⊥
unfolding pending IsHeadAt
no_head [] k h empty at = at
no_head (s ∷ ss) zero h empty at = none_in s.queue at (omega arith)
  where
    none_in : (queue : List TaggedRecord) → IsHead h queue → length queue ≡ 0 → ⊥
    none_in [] a e = a
    none_in (x ∷ xs) a e = omega arith
no_head (s ∷ ss) (suc k) h empty at = no_head ss k h (omega arith) at

-- The head of the source that the pick names.
pub picked :
    (ss : List SourceState) (i : ℕ) (h : TaggedRecord)
    → pick_from 0 none ss ≡ some (i, h)
    → IsHeadAt i h ss
picked ss i h e = elim (pick_from-IsHeadAt ss 0 i none h e) [
  | inl b ↦ absurd (not_none b)
  | inr (le, at) ↦ subst (λ k. IsHeadAt k h ss) (let p : i - 0 ≡ i = omega arith in p) at
]
  where
    not_none : ◌≡◌ {A = Best} none (some (i, h)) → ⊥
    not_none p = cc p

after-Delivers :
    (cutoff rounds : ℕ) (ss : List SourceState) (p : Best)
    → pick_from 0 none ss ≡ p
    → ((i : ℕ) (h : TaggedRecord)
        → IsHeadAt i h ss
        → Delivers cutoff (pop_front i ss) (drain_until cutoff rounds (pop_front i ss)))
    → Delivers cutoff ss (after cutoff rounds ss p)
after-Delivers cutoff rounds ss none e later =
    stopped cutoff ss (λ k h at. absurd (no_head ss k h (pick_from-none ss 0 none e).1 at))
after-Delivers cutoff rounds ss (some (i, h)) e later = elim (Bool-cases (ltb cutoff h.gns)) [
  | inl a ↦ rw a (stopped cutoff ss (λ k x at. first k x at (ground (arith, a))))
  | inr a ↦ rw a (
      one_more cutoff i h ss (drain_until cutoff rounds (pop_front i ss)) (picked ss i h e)
        (ground (arith, a)) (later i h (picked ss i h e)))
]
  where
    first : (k : ℕ) (x : TaggedRecord) → IsHeadAt k x ss → cutoff < h.gns → cutoff < x.gns
    first k x at lt =
        let by : h.gns ≤ x.gns = subst (λ p. IsBy x.gns p) e (pick_from-head ss 0 k none x at) in
        omega arith

drain_until-Delivers :
    (cutoff rounds : ℕ) (ss : List SourceState)
    → pending ss < rounds
    → Delivers cutoff ss (drain_until cutoff rounds ss)
drain_until-Delivers cutoff zero ss lt = absurd (omega arith)
drain_until-Delivers cutoff (suc rounds) ss lt =
    subst (λ d. Delivers cutoff ss d) (sym (drain_until-after cutoff rounds ss))
      (after-Delivers cutoff rounds ss (pick_from 0 none ss) refl (λ i h at.
        drain_until-Delivers cutoff rounds (pop_front i ss)
          (omega (arith, pending-pop_front ss i h at))))

-- `drain_eligible` ends, with a round for every record that waits and one more. What it gives
-- out merges first parts of the queues: the records from each source, in order, followed by what
-- is left there, are what the source had. Every record given out is no later than the cutoff, the
-- lookback before now or 0, and every queue's first record that is left is later.
pub drain_eligible-Delivers :
    (now_ns : ℕ) (ring : MergedRing)
    → Delivers (now_ns - ring.lookback_ns) ring.sources (drain_eligible now_ns ring)
unfolding drain_eligible
drain_eligible-Delivers now_ns ring =
    drain_until-Delivers (now_ns - ring.lookback_ns) (suc (pending ring.sources)) ring.sources
      (omega arith)
