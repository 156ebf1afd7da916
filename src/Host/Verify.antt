-- ===== src/Host/Verify.antt =====
-- host/bifrost/src/verify.rs: the static check of a lowered eBPF program.
pub mod Rules
pub mod Accepts
use project_bifrost.Base.{
  ℕ, zero, suc, ◌+◌, ◌*◌, ◌/◌, ◌%◌, List, [], ◌∷◌, Bytes, Option, none, some, length, drop,
  is_empty, Bool, true, false, not, ◌||◌, ltb, leb, ◌==◌, if◌then◌else◌, ℤ, pos, negsuc, ◌+ℤ◌,
  ltb_ℤ, as_i16, as_i32, signed,
}
use project_bifrost.Lower.Error.{Result, ok, err}

pub data VerifyError : Type 0 where
  bad_length : (len : ℕ) → VerifyError
  bad_register : (insn_idx reg : ℕ) → VerifyError
  stack_oob : (insn_idx : ℕ) (off : ℤ) → VerifyError
  bad_branch : (insn_idx : ℕ) (target : ℤ) → VerifyError
  dangling_ld_dw : (insn_idx : ℕ) → VerifyError
  unknown_helper : (insn_idx : ℕ) (helper : ℤ) → VerifyError

abbrev pub bpf_stack_size : ℕ
bpf_stack_size = 512

abbrev pub known_helpers : List ℕ
known_helpers = 1 ∷ 2 ∷ 5 ∷ 8 ∷ 14 ∷ 16 ∷ 35 ∷ 67 ∷ 113 ∷ 125 ∷ 182 ∷ 131 ∷ 132 ∷ []

abbrev pub contains : List ℕ → ℤ → Bool
contains [] id = false
contains (h ∷ hs) (pos n) = h == n || contains hs (pos n)
contains (h ∷ hs) (negsuc n) = false

-- `& 0x0f`, and `>> 4`
abbrev pub dst_reg : ℕ → ℕ
dst_reg byte1 = byte1 % 16

abbrev pub src_reg : ℕ → ℕ
src_reg byte1 = byte1 / 16 % 16

-- The bytes of one instruction; the caller keeps `idx` below the number of instructions, so no
-- index is out of bounds.
unfoldable pub byte_of : Bytes → ℕ → ℕ
byte_of [] k = 0
byte_of (b ∷ bs) zero = b
byte_of (b ∷ bs) (suc k) = byte_of bs k

unfoldable pub insn_at : Bytes → ℕ → Bytes
insn_at prog idx = drop (idx * 8) prog

abbrev pub read_off : Bytes → ℤ
read_off insn = as_i16 (byte_of insn 2 + 256 * byte_of insn 3)

abbrev pub read_imm : Bytes → ℤ
read_imm insn = as_i32 (
    pos
      (byte_of insn 4 + 256 * byte_of insn 5 + 65536 * byte_of insn 6 + 16777216 * byte_of insn 7))

-- The fields that the loop reads of an instruction.
pub record Insn : Type 0 where
  pub opc : ℕ
  pub dst : ℕ
  pub src : ℕ
  pub off : ℤ
  pub imm : ℤ

unfoldable pub fields_at : Bytes → ℕ → Insn
fields_at prog i =
    let insn = insn_at prog i in
    record {
      opc = byte_of insn 0;
      dst = dst_reg (byte_of insn 1);
      src = src_reg (byte_of insn 1);
      off = read_off insn;
      imm = read_imm insn;
    }

-- `(-BPF_STACK_SIZE..0).contains(&off)`
abbrev pub in_stack : ℤ → Bool
in_stack (pos n) = false
in_stack (negsuc n) = ltb n bpf_stack_size

-- The three classes with checks of their own; `ok` carries how far `i` moves.
unfoldable pub check_wide : Bytes → ℕ → ℕ → Insn → Result VerifyError ℕ
check_wide prog n i insn =
    if insn.opc == 0x18
    then (if leb n (i + 1)
        then err (dangling_ld_dw i)
        else if (fields_at prog (i + 1)).opc == 0
        then ok 2
        else err (dangling_ld_dw i))
    else ok 1

unfoldable pub check_memory : ℕ → Insn → Result VerifyError ℕ
check_memory i insn =
    let mem_reg = if insn.opc % 8 == 1 then insn.src else insn.dst in
    if mem_reg == 10 then (if in_stack insn.off then ok 1 else err (stack_oob i insn.off)) else ok 1

abbrev pub target_of : ℕ → Insn → ℤ
target_of i insn = pos (i + 1) +ℤ insn.off

unfoldable pub check_jump : ℕ → ℕ → Insn → Result VerifyError ℕ
check_jump n i insn =
    if insn.opc == 0x95
    then ok 1
    else if insn.opc == 0x85
    then (if insn.src == 2
        then ok 1
        else if insn.src == 0
        then (if contains known_helpers insn.imm then ok 1 else err (unknown_helper i insn.imm))
        else err (unknown_helper i insn.imm))
    else if ltb_ℤ (target_of i insn) (pos 0) || ltb_ℤ (pos n) (target_of i insn)
    then err (bad_branch i (as_i32 (target_of i insn)))
    else ok 1

unfoldable pub check_insn : Bytes → ℕ → ℕ → Result VerifyError ℕ
check_insn prog n i =
    let insn = fields_at prog i in
    if ltb 10 insn.dst
    then err (bad_register i insn.dst)
    else if ltb 10 insn.src
    then err (bad_register i insn.src)
    else if insn.opc % 8 == 0
    then check_wide prog n i insn
    else if leb (insn.opc % 8) 3
    then check_memory i insn
    else if insn.opc % 8 == 5
    then check_jump n i insn
    else ok 1

-- The loop; `none` when the rounds run out.
unfoldable pub check_from : Bytes → ℕ → ℕ → ℕ → Option (Result VerifyError (Unit {0}))
check_from prog n zero i = none
check_from prog n (suc rounds) i = if leb n i then some (ok tt) else elim (check_insn prog n i) [
  | ok width ↦ check_from prog n rounds (i + width)
  | err e ↦ some (err e)
]

unfoldable pub static_check : Bytes → Option (Result VerifyError (Unit {0}))
static_check prog =
    let n = length prog / 8 in
    if is_empty prog || not (length prog % 8 == 0)
    then some (err (bad_length (length prog)))
    else check_from prog n (suc n) 0
