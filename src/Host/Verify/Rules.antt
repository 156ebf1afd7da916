-- ===== src/Host/Verify/Rules.antt =====
-- The rules that an accepted program keeps, instruction by instruction.
use project_bifrost.Base.{
  ℕ, ◌+◌, ◌%◌, ◌≤◌, ◌<◌, ◌≡◌, ◌≢◌, ◌⊎◌, arith, Bytes, true, ◌==◌, if◌then◌else◌, ℤ, pos, negsuc,
  ◌≤ℤ◌, ◌<ℤ◌,
}
use project_bifrost.Lower.Error.{ok}
use project_bifrost.Host.Verify.{
  Insn, fields_at, check_insn, check_wide, check_memory, check_jump, in_stack, contains,
  known_helpers, target_of,
}

abbrev pub OnStack : ℤ → Type 0
OnStack off = (negsuc 511 ≤ℤ off) × (off <ℤ pos 0)

abbrev pub IsKnown : ℤ → Type 0
IsKnown id = contains known_helpers id ≡ true

-- The wide load has its second half behind it.
abbrev pub IsPaired : ℕ → ℕ → Insn → ℕ → Type 0
IsPaired n i insn next = insn.opc ≡ 0x18 → (i + 1 < n) × (next ≡ 0)

-- A load from the frame pointer, or a store to it, is on the stack.
abbrev pub KeepsStack : Insn → Type 0
KeepsStack insn =
    (insn.opc % 8 ≡ 1 → insn.src ≡ 10 → OnStack insn.off)
    × (1 < insn.opc % 8 → insn.opc % 8 ≤ 3 → insn.dst ≡ 10 → OnStack insn.off)

-- A call names a kernel function or a known helper, and a branch stays in the program.
abbrev pub JumpsWell : ℕ → ℕ → Insn → Type 0
JumpsWell n i insn =
    (insn.opc ≡ 0x85 → (insn.src ≡ 2) ⊎ ((insn.src ≡ 0) × IsKnown insn.imm))
    × (insn.opc % 8 ≡ 5
        → insn.opc ≢ 0x85
        → insn.opc ≢ 0x95
        → (pos 0 ≤ℤ target_of i insn) × (target_of i insn ≤ℤ pos n))

-- An instruction at `i` of a program of `n`, where `next` is the opcode behind it.
abbrev pub IsSound : ℕ → ℕ → Insn → ℕ → Type 0
IsSound n i insn next =
    ((insn.dst ≤ 10) × (insn.src ≤ 10))
    × IsPaired n i insn next
    × KeepsStack insn
    × JumpsWell n i insn

-- How many places of eight bytes an instruction takes.
abbrev pub width : ℕ → ℕ
width opc = if opc == 0x18 then 2 else 1

in_stack_sound : (off : ℤ) → in_stack off ≡ true → OnStack off
in_stack_sound (pos n) h = ground arith
in_stack_sound (negsuc n) h = ground arith

in_stack_complete : (off : ℤ) → OnStack off → in_stack off ≡ true
in_stack_complete (pos n) h = ground arith
in_stack_complete (negsuc n) h = ground arith

module _ (prog : Bytes) (n i : ℕ) (insn : Insn) where
  abbrev next : ℕ
  next = (fields_at prog (i + 1)).opc

  wide_sound :
      (w : ℕ) → check_wide prog n i insn ≡ ok w → IsPaired n i insn next × (w ≡ width insn.opc)
  unfolding check_wide
  wide_sound w h = ground arith

  wide_complete : IsPaired n i insn next → check_wide prog n i insn ≡ ok (width insn.opc)
  unfolding check_wide
  wide_complete h = ground arith

  memory_sound :
      (w : ℕ)
      → 0 < insn.opc % 8
      → insn.opc % 8 ≤ 3
      → check_memory i insn ≡ ok w
      → KeepsStack insn × (w ≡ 1)
  unfolding check_memory
  memory_sound w some few h = ground (arith, in_stack_sound insn.off)

  memory_complete :
      0 < insn.opc % 8 → insn.opc % 8 ≤ 3 → KeepsStack insn → check_memory i insn ≡ ok 1
  unfolding check_memory
  memory_complete some few h = ground (arith, in_stack_complete insn.off)

  jump_sound :
      (w : ℕ) → insn.opc % 8 ≡ 5 → check_jump n i insn ≡ ok w → JumpsWell n i insn × (w ≡ 1)
  unfolding check_jump
  jump_sound w class h = ground arith

  jump_complete : insn.opc % 8 ≡ 5 → JumpsWell n i insn → check_jump n i insn ≡ ok 1
  unfolding check_jump
  jump_complete class h = ground arith

  other-class : insn.opc % 8 ≢ 0 → IsPaired n i insn next × (width insn.opc ≡ 1)
  other-class h = ground arith

module _ (prog : Bytes) (n i : ℕ) where
  abbrev pub Sound : Type 0
  Sound = IsSound n i (fields_at prog i) (fields_at prog (i + 1)).opc

  abbrev insn : Insn
  insn = fields_at prog i

  no_memory : (insn.opc % 8 ≡ 0) ⊎ (3 < insn.opc % 8) → KeepsStack insn
  no_memory h = ground arith

  no_jump : insn.opc % 8 ≢ 5 → JumpsWell n i insn
  no_jump h = ground arith

  pub check_insn-Sound : (w : ℕ) → check_insn prog n i ≡ ok w → Sound × (w ≡ width insn.opc)
  unfolding check_insn
  check_insn-Sound w h = ground (
    arith,
    no_memory,
    no_jump,
    other-class prog n i insn,
    wide_sound prog n i insn w,
    memory_sound prog n i insn w,
    jump_sound prog n i insn w,
  )

  pub Sound-check_insn : Sound → check_insn prog n i ≡ ok (width insn.opc)
  unfolding check_insn
  Sound-check_insn (regs, paired, stack, jumps) = ground (
    arith,
    other-class prog n i insn,
    wide_complete prog n i insn,
    memory_complete prog n i insn,
    jump_complete prog n i insn,
  )
