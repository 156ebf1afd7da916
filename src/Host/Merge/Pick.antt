-- ===== src/Host/Merge/Pick.antt =====
-- Which source the merge takes from.
use project_bifrost.Base.{
  ℕ, zero, suc, ◌+◌, ◌-◌, ◌≤◌, ◌≡◌, ◌⊎◌, inl, inr, refl, arith, ap, sym, ◌∙◌, subst, List, [], ◌∷◌,
  none, some, length, true, false, Bool-cases,
}
use project_bifrost.Host.Merge.{
  TaggedRecord, SourceState, Best, better, pick_from, precedes, pop_front, pending, tail_of,
}

-- The record `h` is the first of a queue, and of the queue of the source at `k`.
abbrev pub IsHead : TaggedRecord → List TaggedRecord → Type 0
IsHead h [] = ⊥
IsHead h (x ∷ xs) = x ≡ h

unfoldable pub IsHeadAt : ℕ → TaggedRecord → List SourceState → Type 0
IsHeadAt k h [] = ⊥
IsHeadAt zero h (s ∷ ss) = IsHead h s.queue
IsHeadAt (suc k) h (s ∷ ss) = IsHeadAt k h ss

-- A best that is no later than the number `b`.
abbrev pub IsBy : ℕ → Best → Type 0
IsBy b none = ⊥
IsBy b (some (i, h)) = h.gns ≤ b

precedes-le : (a b : TaggedRecord) → precedes a b ≡ true → a.gns ≤ b.gns
unfolding precedes
precedes-le a b h = ground arith

precedes-ge : (a b : TaggedRecord) → precedes a b ≡ false → b.gns ≤ a.gns
unfolding precedes
precedes-ge a b h = ground arith

better-first :
    (i b : ℕ) (x bh : TaggedRecord) (xs : List TaggedRecord)
    → precedes x bh ≡ true
    → ◌≡◌ {A = Best} (better i (some (b, bh)) (x ∷ xs)) (some (i, x))
unfolding better
better-first i b x bh xs a = rw a refl

better-kept :
    (i b : ℕ) (x bh : TaggedRecord) (xs : List TaggedRecord)
    → precedes x bh ≡ false
    → ◌≡◌ {A = Best} (better i (some (b, bh)) (x ∷ xs)) (some (b, bh))
unfolding better
better-kept i b x bh xs a = rw a refl

better_or :
    (i j : ℕ) (h : TaggedRecord) (best : Best) (queue : List TaggedRecord)
    → better i best queue ≡ some (j, h)
    → (best ≡ some (j, h)) ⊎ ((i ≡ j) × IsHead h queue)
unfolding better
better_or i j h best [] e = inl e
better_or i j h none (x ∷ xs) e = inr (cc e, cc e)
better_or i j h (some (b, bh)) (x ∷ xs) e = elim (Bool-cases (precedes x bh)) [
  | inl a ↦ taken (some (b, bh)) (sym (better-first i b x bh xs a) ∙ e)
  | inr a ↦ inl (sym (better-kept i b x bh xs a) ∙ e)
]
  where
    taken :
        (best : Best)
        → ◌≡◌ {A = Best} (some (i, x)) (some (j, h))
        → (best ≡ some (j, h)) ⊎ ((i ≡ j) × IsHead h (x ∷ xs))
    taken best p = inr (cc p, cc p)

better-IsBy :
    (i b : ℕ) (best : Best) (queue : List TaggedRecord) → IsBy b best → IsBy b (better i best queue)
unfolding better
better-IsBy i b best [] h = h
better-IsBy i b none (x ∷ xs) h = absurd h
better-IsBy i b (some (k, bh)) (x ∷ xs) h = elim (Bool-cases (precedes x bh)) [
  | inl a ↦ rw a (omega (arith, precedes-le x bh a))
  | inr a ↦ rw a h
]

-- The head that was looked at is no earlier than the best.
better-head :
    (i : ℕ) (best : Best) (x : TaggedRecord) (xs : List TaggedRecord)
    → IsBy x.gns (better i best (x ∷ xs))
unfolding better
better-head i none x xs = omega arith
better-head i (some (k, bh)) x xs = elim (Bool-cases (precedes x bh)) [
  | inl a ↦ rw a (omega arith)
  | inr a ↦ rw a (precedes-ge x bh a)
]

pick_from-IsBy :
    (i b : ℕ) (best : Best) (ss : List SourceState) → IsBy b best → IsBy b (pick_from i best ss)
unfolding pick_from
pick_from-IsBy i b best [] h = h
pick_from-IsBy i b best (s ∷ ss) h =
    pick_from-IsBy (suc i) b (better i best s.queue) ss (better-IsBy i b best s.queue h)

-- The pick is no later than any head.
pub pick_from-head :
    (ss : List SourceState) (i k : ℕ) (best : Best) (h : TaggedRecord)
    → IsHeadAt k h ss
    → IsBy h.gns (pick_from i best ss)
unfolding pick_from IsHeadAt
pick_from-head [] i k best h at = absurd at
pick_from-head (s ∷ ss) i zero best h at =
    pick_from-IsBy (suc i) h.gns (better i best s.queue) ss (at_head s.queue at)
  where
    at_head : (queue : List TaggedRecord) → IsHead h queue → IsBy h.gns (better i best queue)
    at_head [] a = absurd a
    at_head (x ∷ xs) a =
        subst (λ g. IsBy g (better i best (x ∷ xs))) (ap (λ (r : TaggedRecord). r.gns) a)
          (better-head i best x xs)
pick_from-head (s ∷ ss) i (suc k) best h at =
    pick_from-head ss (suc i) k (better i best s.queue) h at

-- The pick is the best of before or the head of the source that it names.
pub pick_from-IsHeadAt :
    (ss : List SourceState) (i j : ℕ) (best : Best) (h : TaggedRecord)
    → pick_from i best ss ≡ some (j, h)
    → (best ≡ some (j, h)) ⊎ ((i ≤ j) × IsHeadAt (j - i) h ss)
unfolding pick_from IsHeadAt
pick_from-IsHeadAt [] i j best h e = inl e
pick_from-IsHeadAt (s ∷ ss) i j best h e =
    elim (pick_from-IsHeadAt ss (suc i) j (better i best s.queue) h e) [
      | inl b ↦ first (better_or i j h best s.queue b)
      | inr (le, at) ↦ inr (
        omega arith,
        subst (λ k. IsHeadAt k h (s ∷ ss)) (let p : suc (j - suc i) ≡ j - i = omega arith in p) at,
      )
    ]
  where
    first :
        (best ≡ some (j, h)) ⊎ ((i ≡ j) × IsHead h s.queue)
        → (best ≡ some (j, h)) ⊎ ((i ≤ j) × IsHeadAt (j - i) h (s ∷ ss))
    first (inl b) = inl b
    first (inr (p, at)) =
        inr (
          omega arith,
          subst (λ k. IsHeadAt k h (s ∷ ss)) (let q : 0 ≡ j - i = omega arith in q) at,
        )

-- Nothing is picked only when every queue is empty.
pub pick_from-none :
    (ss : List SourceState) (i : ℕ) (best : Best)
    → pick_from i best ss ≡ none
    → (best ≡ none) × (pending ss ≡ 0)
unfolding pick_from pending better
pick_from-none [] i best e = (e, refl)
pick_from-none (s ∷ ss) i best e =
    let rest : (better i best s.queue ≡ none) × (pending ss ≡ 0) =
      pick_from-none ss (suc i) (better i best s.queue) e in
    let here : (best ≡ none) × (length s.queue ≡ 0) = nothing best s.queue rest.0 in
    (here.0, omega (arith, here.1, rest.1))
  where
    filled : (t : ℕ × TaggedRecord) → ◌≡◌ {A = Best} (some t) none → ⊥
    filled t p = cc p

    nothing :
        (b : Best) (queue : List TaggedRecord)
        → better i b queue ≡ none
        → (b ≡ none) × (length queue ≡ 0)
    nothing b [] p = (p, refl)
    nothing none (x ∷ xs) p = cc p
    nothing (some (k, bh)) (x ∷ xs) p = elim (Bool-cases (precedes x bh)) [
      | inl a ↦ absurd (filled (i, x) (sym (better-first i k x bh xs a) ∙ p))
      | inr a ↦ absurd (filled (k, bh) (sym (better-kept i k x bh xs a) ∙ p))
    ]

pub pending-pop_front :
    (ss : List SourceState) (k : ℕ) (h : TaggedRecord)
    → IsHeadAt k h ss
    → suc (pending (pop_front k ss)) ≡ pending ss
unfolding pending pop_front IsHeadAt
pending-pop_front [] k h at = absurd at
pending-pop_front (s ∷ ss) zero h at = shorter s.queue at
  where
    shorter :
        (queue : List TaggedRecord)
        → IsHead h queue
        → suc (length (tail_of queue) + pending ss) ≡ length queue + pending ss
    shorter [] a = absurd a
    shorter (x ∷ xs) a = omega arith
pending-pop_front (s ∷ ss) (suc k) h at = omega (arith, pending-pop_front ss k h at)
