-- ===== src/Host/Branch.antt =====
-- host/bifrost/src/lower/branch.rs: branches are emitted without their offset and patched when
-- every place is known.
pub mod Patch
pub mod Targets
pub mod Fixup
mod Runs
use project_bifrost.Base.{
  ℕ, zero, suc, ◌+◌, ◌-◌, ◌*◌, ◌/◌, ◌%◌, ◌^◌, List, [], ◌∷◌, ◌++◌, Bytes, Outcome, ok, err, panic,
  Option, none, some, length, Bool, true, false, ltb, leb, ◌==◌, if◌then◌else◌, ℤ, pos, negsuc,
  ◌+ℤ◌,
}
use project_bifrost.Host.Emit.{complement}

pub data LoweringError : Type 0 where
  bad_dif_instr_count : LoweringError

-- The fields of `LowerState` that branches use.
pub record LowerState : Type 0 where
  pub body : Bytes
  pub insn_offsets : List ℕ
  pub pending_branches : List (ℕ × ℕ)

unfoldable pub emit_branch_placeholder : Bytes → ℕ → LowerState → LowerState
emit_branch_placeholder insn dif_target state = record state {
  body = state.body ++ insn;
  pending_branches = state.pending_branches ++ (length state.body, dif_target) ∷ [];
}

unfoldable pub get {ℓ} : {A : Type ℓ} → List A → ℕ → Option A
get [] i = none
get (x ∷ xs) zero = some x
get (x ∷ xs) (suc i) = get xs i

-- `/ 8` on an `isize` rounds towards 0.
abbrev pub div8 : ℤ → ℤ
div8 (pos n) = pos (n / 8)
div8 (negsuc n) = if suc n / 8 == 0 then pos 0 else negsuc (suc n / 8 - 1)

abbrev pub slot_off : ℕ → ℕ → ℤ
slot_off target_byte branch_off = div8 (pos target_byte +ℤ negsuc (branch_off + 7))

unfoldable pub set_byte : ℕ → ℕ → Bytes → Bytes
set_byte k b [] = []
set_byte zero b (x ∷ xs) = b ∷ xs
set_byte (suc k) b (x ∷ xs) = x ∷ set_byte k b xs

-- `body[branch_off + 2..branch_off + 4].copy_from_slice(&(slot_off as i16).to_le_bytes())`
unfoldable pub patch : ℕ → ℤ → Bytes → Outcome LoweringError Bytes
patch branch_off off body =
    let x = complement (2 ^ 16) off in
    if ltb (length body) (branch_off + 4)
    then panic
    else ok (set_byte (branch_off + 3) (x / 256 % 256) (set_byte (branch_off + 2) (x % 256) body))

unfoldable pub fixup_branch : List ℕ → ℕ × ℕ → Bytes → Outcome LoweringError Bytes
fixup_branch insn_offsets (branch_off, dif_target) body = elim (get insn_offsets dif_target) [
  | none ↦ err bad_dif_instr_count
  | some target_byte ↦ patch branch_off (slot_off target_byte branch_off) body
]

unfoldable pub fixup_each : List ℕ → List (ℕ × ℕ) → Bytes → Outcome LoweringError Bytes
fixup_each insn_offsets [] body = ok body
fixup_each insn_offsets (b ∷ pending) body = elim (fixup_branch insn_offsets b body) [
  | ok body' ↦ fixup_each insn_offsets pending body'
  | err e ↦ err e
  | panic ↦ panic
]

-- The result and the body; what was patched before an error stays in `state`, which the caller
-- gives up then.
unfoldable pub fixup_branches : LowerState → Outcome LoweringError LowerState
fixup_branches state = elim (fixup_each state.insn_offsets state.pending_branches state.body) [
  | ok body ↦ ok (record state { body = body })
  | err e ↦ err e
  | panic ↦ panic
]
