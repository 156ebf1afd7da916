-- ===== src/Wire/Iter/Laws.antt =====
-- How a loop over an iterator ends, and what it collects.
use project_bifrost.Base.{
  ℕ, zero, suc, ◌+◌, ◌-◌, ◌*◌, ◌≤◌, ◌<◌, ◌≡◌, refl, arith, true, false, ◌||◌, none, some, List, [],
  ◌∷◌, ◌++◌, Bytes, Outcome, ok, err, panic, length, ◌≢◌, ◌==◌, Bool-cases, inl, inr, map, chunks,
  All, append_assoc, ap, ◌∙◌, sizes,
}
use project_bifrost.Wire.Error.{WireError}
use project_bifrost.Wire.Decoder.{Decoder}
use project_bifrost.Wire.Decoder.Bounds.{Guarded, InBounds}
use project_bifrost.Wire.Decoder.Reads.{Reads}
use project_bifrost.Wire.Iter.{Iter, yielded, next, drain, collect_item}

-- After the end or an error `next` answers `None` for ever.
abbrev pub IsSpent : Iter → Type 0
IsSpent it = (it.failed || it.remaining == 0) ≡ true

module _ {ℓ} {A : Type ℓ} (decode : Decoder A) where
  pub next-spent : (it : Iter) → IsSpent it → next decode it ≡ (none, it)
  unfolding next
  next-spent it h = rw h

  next-live :
      (it : Iter)
      → (it.failed || it.remaining == 0) ≡ false
      → next decode it ≡ yielded it (decode it.bytes it.cursor)
  unfolding next
  next-live it h = rw h

  -- Every iterator is spent, or its answer is the decoder's.
  drain-spent_at_once : (fuel : ℕ) (it : Iter) → IsSpent it → drain (suc fuel) decode it ≡ ([], it)
  unfolding drain
  drain-spent_at_once fuel it h = rw (next-spent it h)

  drain-live :
      (fuel : ℕ) (it : Iter)
      → (it.failed || it.remaining == 0) ≡ false
      → drain (suc fuel) decode it
        ≡ collect_item (yielded it (decode it.bytes it.cursor)) (drain fuel decode)
  unfolding drain
  drain-live fuel it h = rw (next-live it h)

  spent-drain : (fuel : ℕ) (it : Iter) → IsSpent it → drain fuel decode it ≡ ([], it)
  spent-drain zero it h = unfold drain in refl
  spent-drain (suc fuel) it h = drain-spent_at_once fuel it h

  module _ (m : ℕ) (g : Guarded 0 m decode) where
    -- A loop of `remaining + 1` calls, or more, reads to the end.
    pub drain-IsSpent :
        (fuel : ℕ) (it : Iter)
        → it.cursor ≤ length it.bytes
        → it.remaining < fuel
        → IsSpent (drain fuel decode it).1
    drain-IsSpent zero it b h = absurd (omega arith)
    drain-IsSpent (suc fuel) it b h = elim (Bool-cases (it.failed || it.remaining == 0)) [
      | inl spent ↦ rw (drain-spent_at_once fuel it spent) spent
      | inr live ↦ rw (drain-live fuel it live) (
          after (decode it.bytes it.cursor) (ground arith) (g.at it.bytes it.cursor (omega arith))
            (drain-IsSpent fuel))
    ]
      where
        after :
            (r : Outcome WireError (A × ℕ))
            → 0 < it.remaining
            → InBounds m it.bytes it.cursor r
            → ((it' : Iter)
                → it'.cursor ≤ length it'.bytes
                → it'.remaining < fuel
                → IsSpent (drain fuel decode it').1)
            → IsSpent (collect_item (yielded it r) (drain fuel decode)).1
        after (ok (v, c)) pos (s, s') ih = unfold yielded in ih _ s' (omega arith)
        after (err e) pos s ih =
            unfold yielded in rw (spent-drain fuel (record it { failed = true }) refl)
        after panic pos s ih = absurd s

    -- With at least `m` bytes in every record, the records that are read fit the input: at most one
    -- item, the error that ends the loop, comes on top. There are no more items than were declared.
    pub drain-fits :
        (fuel : ℕ) (it : Iter)
        → it.cursor ≤ length it.bytes
        → (length (drain fuel decode it).0 * m + it.cursor ≤ length it.bytes + m)
          × (length (drain fuel decode it).0 ≤ it.remaining)
    drain-fits zero it h = unfold drain in omega arith
    drain-fits (suc fuel) it h = elim (Bool-cases (it.failed || it.remaining == 0)) [
      | inl spent ↦ rw (drain-spent_at_once fuel it spent) (omega arith)
      | inr live ↦ rw (drain-live fuel it live) (
          after (decode it.bytes it.cursor) (ground arith) (g.at it.bytes it.cursor (omega arith))
            (drain-fits fuel))
    ]
      where
        after :
            (r : Outcome WireError (A × ℕ))
            → 0 < it.remaining
            → InBounds m it.bytes it.cursor r
            → ((it' : Iter)
                → it'.cursor ≤ length it'.bytes
                → (length (drain fuel decode it').0 * m + it'.cursor ≤ length it'.bytes + m)
                  × (length (drain fuel decode it').0 ≤ it'.remaining))
            → (length (collect_item (yielded it r) (drain fuel decode)).0 * m + it.cursor
                ≤ length it.bytes + m)
              × (length (collect_item (yielded it r) (drain fuel decode)).0 ≤ it.remaining)
        after (ok (v, c)) pos (b, b') ih =
            unfold yielded in
            let step = ih (record it { cursor = c; remaining = it.remaining - 1 }) b' in
            omega (arith, step)
        after (err e) pos b ih =
            unfold yielded in rw (spent-drain fuel (record it { failed = true }) refl) (omega arith)
        after panic pos b ih = absurd b

    -- No item is a panic.
    pub drain-IsSafe :
        (fuel : ℕ) (it : Iter)
        → it.cursor ≤ length it.bytes
        → All (λ item. item ≢ panic) (drain fuel decode it).0
    drain-IsSafe zero it h = unfold drain in tt
    drain-IsSafe (suc fuel) it h = elim (Bool-cases (it.failed || it.remaining == 0)) [
      | inl spent ↦ rw (drain-spent_at_once fuel it spent) tt
      | inr live ↦ rw (drain-live fuel it live) (
          after (decode it.bytes it.cursor) (g.at it.bytes it.cursor (omega arith))
            (drain-IsSafe fuel))
    ]
      where
        after :
            (r : Outcome WireError (A × ℕ))
            → InBounds m it.bytes it.cursor r
            → ((it' : Iter)
                → it'.cursor ≤ length it'.bytes
                → All (λ item. item ≢ panic) (drain fuel decode it').0)
            → All (λ item. item ≢ panic) (collect_item (yielded it r) (drain fuel decode)).0
        after (ok (v, c)) (b, b') ih = unfold yielded in ((λ e. cc), ih _ b')
        after (err e) b ih =
            unfold yielded in
            rw (spent-drain fuel (record it { failed = true }) refl) ((λ e. cc), tt)
        after panic b ih = absurd b

abbrev pub fresh : Bytes → ℕ → ℕ → Iter
fresh bytes cursor remaining = record {
  bytes = bytes;
  cursor = cursor;
  remaining = remaining;
  failed = false;
}

-- `decode` reads the record `x` of `bytes` at `cursor`, whatever is around it.
drain-step {ℓ} :
    {A : Type ℓ} (decode : Decoder A) (fuel : ℕ) (bytes : Bytes) (cursor n c : ℕ) {v : A}
    → decode bytes cursor ≡ ok (v, c)
    → drain (suc fuel) decode (fresh bytes cursor (suc n))
      ≡ collect_item (some (ok v), fresh bytes c n) (drain fuel decode)
unfolding yielded
drain-step decode fuel bytes cursor n c {v} e =
    rw (drain-live decode fuel (fresh bytes cursor (suc n)) (ground arith), e)
      (ap (λ (m : ℕ). collect_item (some (ok v), fresh bytes c m) (drain fuel decode))
        (let pred : suc n - 1 ≡ n = omega arith in pred))

-- The records `xs`, each written as `write x` and read as `view x`, come back in order.
module _ {ℓ κ μ} {X : Type ℓ} {A : Type κ} {P : X → Type μ} (decode : Decoder A) (write : X → Bytes)
    (view : X → A) (reads : (x : X) → P x → Reads decode (write x) (view x)) where
  pub drain-written :
      (xs : List X) (fuel : ℕ) (bytes before after : Bytes) (cursor : ℕ)
      → All P xs
      → length xs < fuel
      → bytes ≡ before ++ (chunks write xs ++ after)
      → cursor ≡ length before
      → drain fuel decode (fresh bytes cursor (length xs))
        ≡ (map (λ x. ok (view x)) xs, fresh bytes (cursor + length (chunks write xs)) 0)
  drain-written [] zero bytes before after cursor ps h e e' = absurd (omega arith)
  drain-written [] (suc fuel) bytes before after cursor ps h e e' =
      rw (drain-spent_at_once decode fuel (fresh bytes cursor 0) refl) (
        ap (λ (c : ℕ). ([], fresh bytes c 0))
          (let same : cursor ≡ cursor + 0 = omega arith in same))
  drain-written (x ∷ xs) zero bytes before after cursor ps h e e' = absurd (omega arith)
  drain-written (x ∷ xs) (suc fuel) bytes before after cursor (p, ps) h e e' =
      rw (drain-step decode fuel bytes cursor (length xs) (cursor + length (write x)) first) (
        rw
          (drain-written xs fuel bytes (before ++ write x) after (cursor + length (write x)) ps
            (omega arith) (e ∙ rw (append_assoc, append_assoc)) (omega sizes))
          (ap (λ (c : ℕ). (ok (view x) ∷ map (λ x. ok (view x)) xs, fresh bytes c 0))
            (let same : cursor + length (write x) + length (chunks write xs)
                  ≡ cursor + length (write x ++ chunks write xs) =
                omega sizes in
              same)))
    where
      first : decode bytes cursor ≡ ok (view x, cursor + length (write x))
      first = rw (e, e', append_assoc) ((reads x p).at before (chunks write xs ++ after))
