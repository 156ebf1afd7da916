-- ===== src/Host/Verify/Accepts.antt =====
-- Which programs the static check accepts.
use project_bifrost.Base.{
  ℕ, zero, suc, ◌+◌, ◌/◌, ◌%◌, ◌<◌, ◌≡◌, ◌≢◌, ◌↔◌, inl, inr, refl, arith, ap, sym, ◌∙◌, Bytes,
  Option, some, none, [], ◌∷◌, length, Bool, true, false, ◌||◌, not, Bool-cases, leb, ◌==◌,
  is_empty,
}
use project_bifrost.Lower.Error.{Result, ok, err}
use project_bifrost.Host.Verify.{VerifyError, fields_at, check_insn, check_from, static_check}
use project_bifrost.Host.Verify.Rules.{Sound, width, check_insn-Sound, Sound-check_insn}

-- The places where an instruction begins, from the place `i` on.
pub data Starts (prog : Bytes) (n : ℕ) : ℕ → ℕ → Type 0 where
  here : {i : ℕ} → Starts prog n i i
  later : {i j : ℕ} → i < n → Starts prog n (i + width (fields_at prog i).opc) j → Starts prog n i j

module _ (prog : Bytes) (n : ℕ) where
  -- Every instruction from the place `i` on keeps the rules.
  abbrev pub AllSound : ℕ → Type 0
  AllSound i = (j : ℕ) → Starts prog n i j → j < n → Sound prog n j

  -- The rest of the loop, once an instruction is checked.
  abbrev after : ℕ → ℕ → Result VerifyError ℕ → Option (Result VerifyError (Unit {0}))
  after rounds i (ok w) = check_from prog n rounds (i + w)
  after rounds i (err e) = some (err e)

  check_from-after :
      (i rounds : ℕ)
      → leb n i ≡ false
      → check_from prog n (suc rounds) i ≡ after rounds i (check_insn prog n i)
  unfolding check_from
  check_from-after i rounds a = rw a (same_after (check_insn prog n i))
    where
      same_after :
          (r : Result VerifyError ℕ)
          → elim r [ ok w ↦ check_from prog n rounds (i + w) | err e ↦ some (err e) ]
            ≡ after rounds i r
      same_after (ok w) = refl
      same_after (err e) = refl

  check_from-done :
      (i rounds : ℕ) → leb n i ≡ true → check_from prog n (suc rounds) i ≡ some (ok tt)
  unfolding check_from
  check_from-done i rounds a = rw a refl

  after-none :
      (i rounds : ℕ) (r : Result VerifyError ℕ)
      → check_insn prog n i ≡ r
      → ((w : ℕ) → 0 < w → check_from prog n rounds (i + w) ≢ none)
      → after rounds i r ≢ none
  after-none i rounds (ok w) e ih stuck =
      ih w (ground (arith, (check_insn-Sound prog n i w e).1)) stuck
  after-none i rounds (err x) e ih stuck = cc stuck

  check_from-none : (i rounds : ℕ) → n < i + rounds → 0 < rounds → check_from prog n rounds i ≢ none
  check_from-none i zero lt more h = absurd (omega arith)
  check_from-none i (suc rounds) lt more h = elim (Bool-cases (leb n i)) [
    | inl a ↦ cc (sym (check_from-done i rounds a) ∙ h)
    | inr a ↦
        let inside : i < n = ground (arith, a) in
        after-none i rounds (check_insn prog n i) refl
          (λ w w_lt. check_from-none (i + w) rounds (omega arith) (omega arith))
          (sym (check_from-after i rounds a) ∙ h)
  ]

  after-Sound :
      (i rounds : ℕ) (r : Result VerifyError ℕ)
      → check_insn prog n i ≡ r
      → after rounds i r ≡ some (ok tt)
      → Sound prog n i
        × (check_from prog n rounds (i + width (fields_at prog i).opc) ≡ some (ok tt))
  after-Sound i rounds (ok w) e h =
      let known : Sound prog n i × (w ≡ width (fields_at prog i).opc) =
        check_insn-Sound prog n i w e in
      (known.0, ap (λ (k : ℕ). check_from prog n rounds (i + k)) (sym known.1) ∙ h)
  after-Sound i rounds (err x) e h = cc h

  checked :
      (i rounds : ℕ)
      → i < n
      → check_from prog n (suc rounds) i ≡ some (ok tt)
      → Sound prog n i
        × (check_from prog n rounds (i + width (fields_at prog i).opc) ≡ some (ok tt))
  checked i rounds inside h =
      after-Sound i rounds (check_insn prog n i) refl
        (sym (check_from-after i rounds (ground (arith, inside))) ∙ h)

  check_from-AllSound :
      (rounds i j : ℕ)
      → check_from prog n rounds i ≡ some (ok tt)
      → Starts prog n i j
      → j < n
      → Sound prog n j
  unfolding check_from
  check_from-AllSound zero i j h s lt = cc h
  check_from-AllSound (suc rounds) i _ h here lt = (checked i rounds lt h).0
  check_from-AllSound (suc rounds) i j h (later inside s) lt =
      check_from-AllSound rounds (i + width (fields_at prog i).opc) j (checked i rounds inside h).1
        s lt

  AllSound-check_from :
      (i rounds : ℕ)
      → n < i + rounds
      → 0 < rounds
      → AllSound i
      → check_from prog n rounds i ≡ some (ok tt)
  unfolding check_from
  AllSound-check_from i zero lt more h = absurd (omega arith)
  AllSound-check_from i (suc rounds) lt more h = elim (Bool-cases (leb n i)) [
    | inl a ↦ rw a refl
    | inr a ↦
        let inside : i < n = ground (arith, a) in
        rw (a, Sound-check_insn prog n i (h i here inside))
          (AllSound-check_from (i + width (fields_at prog i).opc) rounds (ground arith)
            (omega arith) (λ j s. h j (later inside s)))
  ]

-- What the test of the program's length comes to.
abbrev misses : Bytes → Bool
misses prog = is_empty prog || not (length prog % 8 == 0)

refused : (prog : Bytes) → misses prog ≡ true → static_check prog ≢ some (ok tt)
unfolding static_check
refused prog a = rw a (λ e. cc e)

static_check-check_from :
    (prog : Bytes)
    → misses prog ≡ false
    → static_check prog ≡ check_from prog (length prog / 8) (suc (length prog / 8)) 0
unfolding static_check
static_check-check_from prog a = rw a refl

of_size : (prog : Bytes) → misses prog ≡ false → (0 < length prog) × (length prog % 8 ≡ 0)
of_size [] a = cc a
of_size (b ∷ bs) a = (omega arith, ground (arith, a))

has_size : (prog : Bytes) → 0 < length prog → length prog % 8 ≡ 0 → misses prog ≡ false
has_size [] lt whole = absurd (omega arith)
has_size (b ∷ bs) lt whole = ground (arith, whole)

-- The static check ends on every program with a verdict.
pub static_check-none : (prog : Bytes) → static_check prog ≢ none
unfolding static_check
static_check-none prog = elim (Bool-cases (is_empty prog || not (length prog % 8 == 0))) [
  | inl a ↦ rw a (λ e. cc e)
  | inr a ↦
      rw a (
        check_from-none prog (length prog / 8) 0 (suc (length prog / 8)) (omega arith)
          (omega arith))
]

-- A program is accepted exactly when it is not empty, consists of whole instructions, and every
-- instruction that is reached from the first by going on, two places behind a wide load, keeps the
-- rules: its registers are at most r10; a wide load is followed by a place with opcode 0; loads
-- and stores at r10 are on the stack of 512 bytes; calls name a kernel function or a known helper;
-- the other jumps go to a place of the program or to its end.
pub static_check-AllSound :
    (prog : Bytes)
    → (static_check prog ≡ some (ok tt))
      ↔ ((0 < length prog) × (length prog % 8 ≡ 0) × AllSound prog (length prog / 8) 0)
static_check-AllSound prog = (only, accepts)
  where
    only :
        static_check prog ≡ some (ok tt)
        → (0 < length prog) × (length prog % 8 ≡ 0) × AllSound prog (length prog / 8) 0
    only h = elim (Bool-cases (is_empty prog || not (length prog % 8 == 0))) [
      | inl a ↦ absurd (refused prog a h)
      | inr a ↦
          let sized : (0 < length prog) × (length prog % 8 ≡ 0) = of_size prog a in
          (
            sized.0,
            sized.1,
            λ j s lt.
                check_from-AllSound prog (length prog / 8) (suc (length prog / 8)) 0 j
                  (sym (static_check-check_from prog a) ∙ h) s lt,
          )
    ]

    accepts :
        (0 < length prog) × (length prog % 8 ≡ 0) × AllSound prog (length prog / 8) 0
        → static_check prog ≡ some (ok tt)
    accepts (some_insn, whole, sound) =
        static_check-check_from prog (has_size prog some_insn whole)
        ∙ AllSound-check_from prog (length prog / 8) 0 (suc (length prog / 8)) (omega arith)
            (omega arith) sound
