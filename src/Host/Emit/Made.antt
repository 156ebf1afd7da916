-- ===== src/Host/Emit/Made.antt =====
-- Programs that are made of encoded instructions pass the static check.
use project_bifrost.Base.{
  ℕ, suc, ◌+◌, ◌*◌, ◌/◌, ◌%◌, ◌≤◌, ◌<◌, ◌≡◌, ◌≢◌, ◌⊎◌, inl, inr, refl, arith, sym, ap, ◌∙◌, subst,
  List, [], ◌∷◌, ◌++◌, append_assoc, Bytes, All, chunks, length, length-append, le_bytes, some,
}
use project_bifrost.Lower.Error.{ok}
use project_bifrost.Host.Verify.{Insn, fields_at, static_check}
use project_bifrost.Host.Verify.Rules.{Sound, IsSound, KeepsStack, IsKnown, width}
use project_bifrost.Host.Verify.Accepts.{Starts, here, later, static_check-AllSound}
use project_bifrost.Host.Emit.{bpf_insn}
use project_bifrost.Host.Emit.Decode.{IsInsn, bytes_of, fields_at-bytes_of}

-- One instruction, or a wide load with its second half.
pub data Piece : Type 0 where
  one : Insn → Piece
  wide : (lo hi : Insn) → Piece

abbrev pub piece_bytes : Piece → Bytes
piece_bytes (one i) = bytes_of i
piece_bytes (wide lo hi) = bytes_of lo ++ bytes_of hi

-- An instruction that the static check accepts at any place: no branch, and no wide load.
abbrev pub IsPlain : Insn → Type 0
IsPlain i =
    IsInsn i
    × ((i.dst ≤ 10) × (i.src ≤ 10))
    × (i.opc ≢ 0x18)
    × KeepsStack i
    × (i.opc ≡ 0x85 → (i.src ≡ 2) ⊎ ((i.src ≡ 0) × IsKnown i.imm))
    × (i.opc % 8 ≡ 5 → (i.opc ≡ 0x85) ⊎ (i.opc ≡ 0x95))

abbrev pub IsPiece : Piece → Type 0
IsPiece (one i) = IsPlain i
IsPiece (wide lo hi) =
    IsInsn lo × IsInsn hi × ((lo.dst ≤ 10) × (lo.src ≤ 10)) × (lo.opc ≡ 0x18) × (hi.opc ≡ 0)

abbrev pub program : List Piece → Bytes
program = chunks piece_bytes

pub length-bytes_of : (i : Insn) → length (bytes_of i) ≡ 8
unfolding bpf_insn le_bytes
length-bytes_of i = refl

-- The places of the pieces.
abbrev places : List Piece → ℕ
places [] = 0
places (one i ∷ ps) = suc (places ps)
places (wide lo hi ∷ ps) = suc (suc (places ps))

length-program : (ps : List Piece) → length (program ps) ≡ places ps * 8
length-program [] = refl
length-program (one i ∷ ps) =
    omega (arith, length-append (bytes_of i) (program ps), length-bytes_of i, length-program ps)
length-program (wide lo hi ∷ ps) = omega (
  arith,
  length-append (bytes_of lo ++ bytes_of hi) (program ps),
  length-append (bytes_of lo) (bytes_of hi),
  length-bytes_of lo,
  length-bytes_of hi,
  length-program ps,
)

some_place : (ps : List Piece) → 0 < length ps → 0 < places ps
some_place [] more = absurd (omega arith)
some_place (one i ∷ ps) more = omega arith
some_place (wide lo hi ∷ ps) more = omega arith

module _ (prog : Bytes) (n : ℕ) where
  plain-Sound : (k : ℕ) (i : Insn) → k < n → fields_at prog k ≡ i → IsPlain i → Sound prog n k
  plain-Sound k i lt e (range, regs, narrow, stack, call, branch) =
      subst (λ t. IsSound n k t (fields_at prog (k + 1)).opc) (sym e)
        (
          regs,
          (λ c. absurd (narrow c)),
          stack,
          (
            call,
            λ c not_call not_exit. elim (branch c) [
              | inl a ↦ absurd (not_call a)
              | inr b ↦ absurd (not_exit b)
            ],
          ),
        )

  wide-Sound :
      (k : ℕ) (lo hi : Insn)
      → k + 1 < n
      → fields_at prog k ≡ lo
      → fields_at prog (k + 1) ≡ hi
      → IsPiece (wide lo hi)
      → Sound prog n k
  wide-Sound k lo hi lt e e' (lo_range, hi_range, regs, wide_opc, rest_opc) =
      subst (λ t. IsSound n k t (fields_at prog (k + 1)).opc) (sym e)
        (
          regs,
          (λ c. (lt, ap (λ (t : Insn). t.opc) e' ∙ rest_opc)),
          ((λ c. absurd (omega arith)), (λ c. absurd (omega arith))),
          ((λ c. absurd (omega arith)), (λ c. absurd (omega arith))),
        )

  narrow_width :
      (k : ℕ) (i : Insn)
      → fields_at prog k ≡ i
      → i.opc ≢ 0x18
      → k + width (fields_at prog k).opc ≡ suc k
  narrow_width k i e narrow =
      let same : (fields_at prog k).opc ≡ i.opc = ap (λ (t : Insn). t.opc) e in ground arith

  wide_width :
      (k : ℕ) (i : Insn)
      → fields_at prog k ≡ i
      → i.opc ≡ 0x18
      → k + width (fields_at prog k).opc ≡ suc (suc k)
  wide_width k i e is_wide =
      let same : (fields_at prog k).opc ≡ i.opc = ap (λ (t : Insn). t.opc) e in ground arith

  -- The places behind an instruction are those that its successor reaches.
  step-Sound :
      (k k' j : ℕ)
      → Sound prog n k
      → k + width (fields_at prog k).opc ≡ k'
      → (Starts prog n k' j → j < n → Sound prog n j)
      → Starts prog n k j
      → j < n
      → Sound prog n j
  step-Sound k k' _ sound e ahead here lt = sound
  step-Sound k k' j sound e ahead (later inside s) lt =
      ahead (subst (λ t. Starts prog n t j) e s) lt

  program-Sound :
      (ps : List Piece) (before : Bytes) (k j : ℕ)
      → length before ≡ k * 8
      → prog ≡ before ++ program ps
      → n ≡ k + places ps
      → All IsPiece ps
      → Starts prog n k j
      → j < n
      → Sound prog n j
  program-Sound [] before k _ at e size all here lt = absurd (omega arith)
  program-Sound [] before k j at e size all (later inside s) lt = absurd (omega arith)
  program-Sound (one i ∷ ps) before k j at e size (h, hs) s lt =
      step-Sound k (suc k) j (plain-Sound k i (omega arith) read h) (narrow_width k i read h.2)
        (program-Sound ps (before ++ bytes_of i) (suc k) j
          (omega (arith, length-append before (bytes_of i), length-bytes_of i))
          (e ∙ sym (append_assoc before (bytes_of i) (program ps))) (omega arith) hs)
        s lt
    where
      read : fields_at prog k ≡ i
      read =
          subst (λ t. fields_at t k ≡ i) (sym e) (fields_at-bytes_of before (program ps) k i at h.0)
  program-Sound (wide lo hi ∷ ps) before k j at e size (h, hs) s lt =
      step-Sound k (suc (suc k)) j (wide-Sound k lo hi (omega arith) read read_rest h)
        (wide_width k lo read h.3)
        (program-Sound ps (before ++ (bytes_of lo ++ bytes_of hi)) (suc (suc k)) j
          (omega (
            arith,
            length-append before (bytes_of lo ++ bytes_of hi),
            length-append (bytes_of lo) (bytes_of hi),
            length-bytes_of lo,
            length-bytes_of hi,
          ))
          (e ∙ sym (append_assoc before (bytes_of lo ++ bytes_of hi) (program ps))) (omega arith)
          hs)
        s lt
    where
      first : prog ≡ before ++ (bytes_of lo ++ (bytes_of hi ++ program ps))
      first =
          e
          ∙ ap (λ (t : Bytes). before ++ t) (append_assoc (bytes_of lo) (bytes_of hi) (program ps))

      read : fields_at prog k ≡ lo
      read =
          subst (λ t. fields_at t k ≡ lo) (sym first)
            (fields_at-bytes_of before (bytes_of hi ++ program ps) k lo at h.0)

      read_rest : fields_at prog (k + 1) ≡ hi
      read_rest =
          subst (λ t. fields_at t (k + 1) ≡ hi)
            (append_assoc before (bytes_of lo) (bytes_of hi ++ program ps) ∙ sym first)
            (fields_at-bytes_of (before ++ bytes_of lo) (program ps) (k + 1) hi
              (omega (arith, length-append before (bytes_of lo), length-bytes_of lo)) h.1)

-- A program made of at least one piece is accepted.
pub program-static_check :
    (ps : List Piece) → All IsPiece ps → 0 < length ps → static_check (program ps) ≡ some (ok tt)
program-static_check ps h more = (static_check-AllSound (program ps)).1 (
  omega (arith, length-program ps, some_place ps more),
  omega (arith, length-program ps),
  λ j s lt.
      program-Sound (program ps) (length (program ps) / 8) ps [] 0 j refl refl
        (omega (arith, length-program ps)) h s lt,
)
