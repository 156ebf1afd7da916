-- ===== src/Wire/Wrapper/Safety.antt =====
-- The wrapper's decoder on any input.
use project_bifrost.Base.{
  ℕ, suc, false, ◌+◌, ◌*◌, ◌≤◌, ◌≢◌, arith, Bytes, Outcome, ok, err, panic, length, All,
}
use project_bifrost.Wire.Error.{WireError}
use project_bifrost.Wire.Decoder.Bounds.{
  Guarded, InBounds, Guarded-need, Guarded-Takes, Guarded-fail_if, Guarded-last, Takes-take,
  Takes-uint,
}
use project_bifrost.Wire.Iter.{Iter, drain}
use project_bifrost.Wire.Iter.Laws.{IsSpent, drain-IsSpent, drain-fits, drain-IsSafe}
use project_bifrost.Wire.Program.Decode.{decode_one_program}
use project_bifrost.Wire.Program.Bounds.{decode_one_program-Guarded}
use project_bifrost.Wire.Wrapper.{decode_wrapper_header, decode_bfr7, program_iter}

header-Guarded : Guarded 0 8 decode_wrapper_header
unfolding decode_wrapper_header
header-Guarded = Guarded-need 0 8 8 _ (
    Guarded-Takes 4 8 4 8 4 _ (Takes-take 4) (omega arith) (omega arith)
      λ m. Guarded-fail_if 4 4 _ _ (Guarded-last 4 (Takes-uint 4)))

-- A loop over the programs of an input of `n` bytes, with one call more than were declared, reads
-- to the end or to an error; no program panics; and there are at most as many items as declared,
-- and one (the error) more than have room.
abbrev pub LoopsSafely : ℕ → Outcome WireError Iter → Type 0
LoopsSafely n (ok it) =
    IsSpent (drain (suc it.remaining) decode_one_program it).1
    × All (λ item. item ≢ panic) (drain (suc it.remaining) decode_one_program it).0
    × (length (drain (suc it.remaining) decode_one_program it).0 ≤ it.remaining)
    × (length (drain (suc it.remaining) decode_one_program it).0 * 52 ≤ n + 44)
LoopsSafely n (err e) = Unit
LoopsSafely n panic = ⊥

-- On any bytes `decode_bfr7` gives an error or an iterator whose loop, with one call more than
-- programs were declared, ends spent, yields no panic, no more items than declared, and at most one
-- item, the error, more than the input has room for.
pub decode_bfr7_safe : (bytes : Bytes) → LoopsSafely (length bytes) (decode_bfr7 bytes)
unfolding decode_bfr7
decode_bfr7_safe bytes =
    judge (decode_wrapper_header bytes 0) (header-Guarded.at bytes 0 (omega arith))
  where
    judge :
        (r : Outcome WireError (ℕ × ℕ))
        → InBounds 8 bytes 0 r
        → LoopsSafely (length bytes) (program_iter bytes r)
    judge (ok (n, c)) (h, h') =
        let it : Iter = record { bytes = bytes; cursor = c; remaining = n; failed = false } in
        let fits = drain-fits decode_one_program 52 decode_one_program-Guarded (suc n) it h' in
        (
          drain-IsSpent decode_one_program 52 decode_one_program-Guarded (suc n) it h'
              (omega arith),
          drain-IsSafe decode_one_program 52 decode_one_program-Guarded (suc n) it h',
          fits.1,
          omega (arith, fits.0),
        )
    judge (err e) h = tt
    judge panic h = h
