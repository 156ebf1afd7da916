-- ===== src/Host/Runs.antt =====
-- Small programs and merges, and the theorems at concrete inputs.
use project_bifrost.Base.{
  ◌/◌, ◌%◌, ◌≡◌, ◌≢◌, ◌<◌, ◌↔◌, refl, [], ◌∷◌, ◌++◌, Bytes, length, some, none, pos, negsuc, ◌+ℤ◌,
}
use project_bifrost.Lower.Error.{ok, err}
use project_bifrost.Host.Verify.{
  static_check, check_from, check_insn, check_jump, check_memory, check_wide, fields_at, byte_of,
  insn_at, unknown_helper, stack_oob,
}
use project_bifrost.Host.Verify.Accepts.{AllSound, static_check-none, static_check-AllSound}

-- `r0 = 0; exit`
abbrev nothing : Bytes
nothing = 0xb7 ∷ 0 ∷ 0 ∷ 0 ∷ 0 ∷ 0 ∷ 0 ∷ 0 ∷ 0x95 ∷ 0 ∷ 0 ∷ 0 ∷ 0 ∷ 0 ∷ 0 ∷ 0 ∷ []

-- A wide load with its second half, and a jump back into that half.
abbrev into_half : Bytes
into_half =
    (0x18 ∷ 1 ∷ 0 ∷ 0 ∷ 0 ∷ 0 ∷ 0 ∷ 0 ∷ 0 ∷ 0 ∷ 0 ∷ 0 ∷ 0 ∷ 0 ∷ 0 ∷ 0 ∷ [])
    ++ (0x05 ∷ 0 ∷ 0xfe ∷ 0xff ∷ 0 ∷ 0 ∷ 0 ∷ 0 ∷ [])

static_check-none_example : static_check nothing ≢ none
static_check-none_example = static_check-none nothing

static_check-AllSound_example :
    (static_check nothing ≡ some (ok tt))
    ↔ ((0 < length nothing) × (length nothing % 8 ≡ 0) × AllSound nothing (length nothing / 8) 0)
static_check-AllSound_example = static_check-AllSound nothing

nothing_accepted : static_check nothing ≡ some (ok tt)
unfolding static_check check_from check_insn check_jump check_memory check_wide fields_at byte_of
    insn_at
nothing_accepted = refl

into_half_accepted : static_check into_half ≡ some (ok tt)
unfolding static_check check_from check_insn check_jump check_memory check_wide fields_at byte_of
    insn_at ◌+ℤ◌
into_half_accepted = refl

helper_unknown :
    static_check (0x85 ∷ 0 ∷ 0 ∷ 0 ∷ 3 ∷ 0 ∷ 0 ∷ 0 ∷ []) ≡ some (err (unknown_helper 0 (pos 3)))
unfolding static_check check_from check_insn check_jump check_memory check_wide fields_at byte_of
    insn_at
helper_unknown = refl

stack_below :
    static_check (0x7b ∷ 10 ∷ 0xff ∷ 0xfd ∷ 0 ∷ 0 ∷ 0 ∷ 0 ∷ [])
    ≡ some (err (stack_oob 0 (negsuc 512)))
unfolding static_check check_from check_insn check_jump check_memory check_wide fields_at byte_of
    insn_at
stack_below = refl
