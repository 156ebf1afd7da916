-- ===== src/Wire/Iter.antt =====
-- `ProgramIter`, `FieldRelocIter` and `SelfFieldIter` of host/bifrost-wire/src have the same four
-- fields and the same `next`, each over its own decoder of one record.
pub mod Laws
use project_bifrost.Base.{
  ℕ, zero, suc, ◌-◌, Bool, true, false, ◌||◌, Option, none, some, List, [], ◌∷◌, Bytes, Outcome, ok,
  err, panic, ◌==◌, if◌then◌else◌,
}
use project_bifrost.Wire.Error.{WireError}
use project_bifrost.Wire.Decoder.{Decoder}

pub record Iter : Type 0 where
  pub bytes : Bytes
  pub cursor : ℕ
  pub remaining : ℕ
  pub failed : Bool

module _ {ℓ} {A : Type ℓ} where
  -- The `match` on the decoder's answer. A panic leaves the iterator as it was.
  unfoldable pub yielded : Iter → Outcome WireError (A × ℕ) → Option (Outcome WireError A) × Iter
  yielded it (ok (view, next_cursor)) =
      (some (ok view), record it { cursor = next_cursor; remaining = it.remaining - 1 })
  yielded it (err e) = (some (err e), record it { failed = true })
  yielded it panic = (some panic, it)

  unfoldable pub next : Decoder A → Iter → Option (Outcome WireError A) × Iter
  unfolding yielded
  next decode it =
      if it.failed || it.remaining == 0 then (none, it) else yielded it (decode it.bytes it.cursor)

  abbrev pub collect_item :
      Option (Outcome WireError A) × Iter
      → (Iter → List (Outcome WireError A) × Iter)
      → List (Outcome WireError A) × Iter
  collect_item (none, it) rest = ([], it)
  collect_item (some item, it) rest = (item ∷ (rest it).0, (rest it).1)

  -- A `for` loop over the iterator, `fuel` calls of `next` at most: the items in order, and the
  -- iterator behind the loop.
  unfoldable pub drain : ℕ → Decoder A → Iter → List (Outcome WireError A) × Iter
  drain zero decode it = ([], it)
  drain (suc fuel) decode it = collect_item (next decode it) (drain fuel decode)
