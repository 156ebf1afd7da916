-- ===== src/Host/Merge/Order.antt =====
-- The merged stream is in the order of time when every source is.
use project_bifrost.Base.{
  ℕ, zero, suc, ◌-◌, ◌≤◌, ◌≡◌, inl, inr, refl, arith, sym, subst, List, [], ◌∷◌, none, some, All,
  ltb, Bool-cases,
}
use project_bifrost.Host.Merge.{
  TaggedRecord, SourceState, MergedRing, Best, Drained, pick_from, pop_front, pending, tail_of,
  emit, drain_until, drain_eligible,
}
use project_bifrost.Host.Merge.Pick.{IsHead, IsHeadAt, IsBy, pick_from-head}
use project_bifrost.Host.Merge.Drain.{
  Delivers, after, drain_until-after, picked, drain_eligible-Delivers,
}

-- No record is before the time `b`.
abbrev pub NotBefore : ℕ → List TaggedRecord → Type 0
NotBefore b = All (λ r. b ≤ r.gns)

unfoldable pub IsAscending : List TaggedRecord → Type 0
IsAscending [] = Unit {0}
IsAscending (x ∷ xs) = NotBefore x.gns xs × IsAscending xs

unfoldable pub EachAscending : List SourceState → Type 0
EachAscending [] = Unit {0}
EachAscending (s ∷ ss) = IsAscending s.queue × EachAscending ss

unfoldable pub EachNotBefore : ℕ → List SourceState → Type 0
EachNotBefore b [] = Unit {0}
EachNotBefore b (s ∷ ss) = NotBefore b s.queue × EachNotBefore b ss

NotBefore-le : (a b : ℕ) (xs : List TaggedRecord) → a ≤ b → NotBefore b xs → NotBefore a xs
NotBefore-le a b [] le h = tt
NotBefore-le a b (x ∷ xs) le (h, hs) = (omega arith, NotBefore-le a b xs le hs)

-- What no head is before, no record is.
heads-EachNotBefore :
    (b : ℕ) (ss : List SourceState)
    → EachAscending ss
    → ((k : ℕ) (x : TaggedRecord) → IsHeadAt k x ss → b ≤ x.gns)
    → EachNotBefore b ss
unfolding IsHeadAt EachAscending EachNotBefore IsAscending
heads-EachNotBefore b [] up h = tt
heads-EachNotBefore b (s ∷ ss) (up, ups) h =
    (all_of s.queue up (λ x. h 0 x), heads-EachNotBefore b ss ups (λ k. h (suc k)))
  where
    all_of :
        (queue : List TaggedRecord)
        → IsAscending queue
        → ((x : TaggedRecord) → IsHead x queue → b ≤ x.gns)
        → NotBefore b queue
    all_of [] u f = tt
    all_of (x ∷ xs) (u, us) f = (f x refl, NotBefore-le b x.gns xs (f x refl) u)

pop_front-EachAscending :
    (k : ℕ) (ss : List SourceState) → EachAscending ss → EachAscending (pop_front k ss)
unfolding EachAscending pop_front IsAscending
pop_front-EachAscending k [] up = tt
pop_front-EachAscending zero (s ∷ ss) (up, ups) = (tail_up s.queue up, ups)
  where
    tail_up : (queue : List TaggedRecord) → IsAscending queue → IsAscending (tail_of queue)
    tail_up [] u = tt
    tail_up (x ∷ xs) (u, us) = us
pop_front-EachAscending (suc k) (s ∷ ss) (up, ups) = (up, pop_front-EachAscending k ss ups)

pop_front-EachNotBefore :
    (b k : ℕ) (ss : List SourceState) → EachNotBefore b ss → EachNotBefore b (pop_front k ss)
unfolding EachNotBefore pop_front
pop_front-EachNotBefore b k [] h = tt
pop_front-EachNotBefore b zero (s ∷ ss) (h, hs) = (tail_of_all s.queue h, hs)
  where
    tail_of_all : (queue : List TaggedRecord) → NotBefore b queue → NotBefore b (tail_of queue)
    tail_of_all [] u = tt
    tail_of_all (x ∷ xs) (u, us) = us
pop_front-EachNotBefore b (suc k) (s ∷ ss) (h, hs) = (h, pop_front-EachNotBefore b k ss hs)

-- The records given out ascend from the time `b`, and what is left ascends.
abbrev IsOrdered : ℕ → Drained → Type 0
IsOrdered b none = Unit {0}
IsOrdered b (some (out, ss)) = NotBefore b out × IsAscending out × EachAscending ss

emit-IsOrdered :
    (b : ℕ) (h : TaggedRecord) (d : Drained)
    → b ≤ h.gns
    → IsOrdered h.gns d
    → IsOrdered b (emit h d)
unfolding IsAscending
emit-IsOrdered b h none le o = tt
emit-IsOrdered b h (some (out, ss)) le (from_h, up, left) =
    ((le, NotBefore-le b h.gns out le from_h), (from_h, up), left)

EachNotBefore-head :
    (b k : ℕ) (h : TaggedRecord) (ss : List SourceState)
    → EachNotBefore b ss
    → IsHeadAt k h ss
    → b ≤ h.gns
unfolding EachNotBefore IsHeadAt
EachNotBefore-head b k h [] all at = absurd at
EachNotBefore-head b zero h (s ∷ ss) (all, alls) at = head_of s.queue all at
  where
    head_of : (queue : List TaggedRecord) → NotBefore b queue → IsHead h queue → b ≤ h.gns
    head_of [] u a = absurd a
    head_of (x ∷ xs) (u, us) a = subst (λ (r : TaggedRecord). b ≤ r.gns) a u
EachNotBefore-head b (suc k) h (s ∷ ss) (all, alls) at = EachNotBefore-head b k h ss alls at

after-IsOrdered :
    (cutoff rounds b : ℕ) (ss : List SourceState) (p : Best)
    → pick_from 0 none ss ≡ p
    → EachAscending ss
    → EachNotBefore b ss
    → ((i c : ℕ)
        → EachAscending (pop_front i ss)
        → EachNotBefore c (pop_front i ss)
        → IsOrdered c (drain_until cutoff rounds (pop_front i ss)))
    → IsOrdered b (after cutoff rounds ss p)
unfolding IsAscending
after-IsOrdered cutoff rounds b ss none e up all later = (tt, tt, up)
after-IsOrdered cutoff rounds b ss (some (i, h)) e up all later =
    elim (Bool-cases (ltb cutoff h.gns)) [
      | inl a ↦ rw a (tt, tt, up)
      | inr a ↦ rw a (
          emit-IsOrdered b h (drain_until cutoff rounds (pop_front i ss))
            (EachNotBefore-head b i h ss all (picked ss i h e))
            (later i h.gns (pop_front-EachAscending i ss up)
              (pop_front-EachNotBefore h.gns i ss (heads-EachNotBefore h.gns ss up from_h))))
    ]
  where
    from_h : (k : ℕ) (x : TaggedRecord) → IsHeadAt k x ss → h.gns ≤ x.gns
    from_h k x at = subst (λ p. IsBy x.gns p) e (pick_from-head ss 0 k none x at)

drain_until-IsOrdered :
    (cutoff rounds b : ℕ) (ss : List SourceState)
    → EachAscending ss
    → EachNotBefore b ss
    → IsOrdered b (drain_until cutoff rounds ss)
unfolding drain_until
drain_until-IsOrdered cutoff zero b ss up all = tt
drain_until-IsOrdered cutoff (suc rounds) b ss up all =
    subst (λ d. IsOrdered b d) (sym (drain_until-after cutoff rounds ss))
      (after-IsOrdered cutoff rounds b ss (pick_from 0 none ss) refl up all
        (λ i c. drain_until-IsOrdered cutoff rounds c (pop_front i ss)))

-- The stream ascends, nothing that is left is before the end of the cutoff, and each queue ascends.
abbrev pub Separates : ℕ → Drained → Type 0
Separates cutoff none = ⊥
Separates cutoff (some (out, ss)) =
    IsAscending out
    × All (λ (r : TaggedRecord). r.gns ≤ cutoff) out
    × EachNotBefore (suc cutoff) ss
    × EachAscending ss

-- When the records of each source ascend in time, `drain_eligible` gives out an ascending stream
-- of records up to the cutoff, the lookback before now or 0; all that is left is later than the
-- cutoff and still ascends in each source.
pub drain_eligible-Separates :
    (now_ns : ℕ) (ring : MergedRing)
    → EachAscending ring.sources
    → Separates (now_ns - ring.lookback_ns) (drain_eligible now_ns ring)
unfolding drain_eligible
drain_eligible-Separates now_ns ring up =
    both (drain_eligible now_ns ring) (drain_eligible-Delivers now_ns ring) (
      drain_until-IsOrdered cutoff (suc (pending ring.sources)) 0 ring.sources up
        (heads-EachNotBefore 0 ring.sources up (λ k x at. omega arith)))
  where
    cutoff : ℕ
    cutoff = now_ns - ring.lookback_ns

    both : (d : Drained) → Delivers cutoff ring.sources d → IsOrdered 0 d → Separates cutoff d
    both none d o = d
    both (some (out, ss)) (m, below, waiting) (all, ascending, left) =
        (ascending, below, heads-EachNotBefore (suc cutoff) ss left waiting, left)
