-- ===== src/Host/Emit.antt =====
-- host/bifrost/src/lower/emit.rs: the encoders of single instructions and the sequences around
-- records, kernel functions and helpers.
pub mod Decode
pub mod Made
pub mod Keeps
pub mod Sequences
mod Runs
use project_bifrost.Base.{
  ℕ, zero, suc, ◌+◌, ◌-◌, ◌*◌, ◌/◌, ◌%◌, ◌^◌, String, List, [], ◌∷◌, ◌++◌, Bytes, length, le_bytes,
  Bool, true, false, ◌==◌, if◌then◌else◌, as_u32, ℤ, pos, negsuc, as_i32,
}

-- `to_le_bytes` of an `i16` and of an `i32` goes through their two's complement.
abbrev pub complement : ℕ → ℤ → ℕ
complement range (pos n) = n % range
complement range (negsuc n) = range - 1 - n % range

unfoldable pub bpf_insn : (code dst src : ℕ) (off imm : ℤ) → Bytes
bpf_insn code dst src off imm =
    code
    ∷ (src % 16 * 16 + dst % 16)
    ∷ (le_bytes 2 (complement (2 ^ 16) off) ++ le_bytes 4 (complement (2 ^ 32) imm))

abbrev pub bpf_mov64_reg : ℕ → ℕ → Bytes
bpf_mov64_reg dst src = bpf_insn 0xbf dst src (pos 0) (pos 0)

abbrev pub bpf_mov64_imm : ℕ → ℤ → Bytes
bpf_mov64_imm dst imm = bpf_insn 0xb7 dst 0 (pos 0) imm

abbrev pub bpf_call : ℤ → Bytes
bpf_call helper_id = bpf_insn 0x85 0 0 (pos 0) helper_id

abbrev pub bpf_exit : Bytes
bpf_exit = bpf_insn 0x95 0 0 (pos 0) (pos 0)

abbrev pub bpf_stx_dw : ℕ → ℕ → ℤ → Bytes
bpf_stx_dw dst src off = bpf_insn 0x7b dst src off (pos 0)

abbrev pub bpf_ldx_dw : ℕ → ℕ → ℤ → Bytes
bpf_ldx_dw dst src off = bpf_insn 0x79 dst src off (pos 0)

abbrev pub bpf_stx_w : ℕ → ℕ → ℤ → Bytes
bpf_stx_w dst src off = bpf_insn 0x63 dst src off (pos 0)

abbrev pub bpf_jeq_imm : ℕ → ℤ → ℤ → Bytes
bpf_jeq_imm dst imm off = bpf_insn 0x15 dst 0 off imm

abbrev pub bpf_alu64_imm : ℕ → ℕ → ℤ → Bytes
bpf_alu64_imm opcode dst imm = bpf_insn opcode dst 0 (pos 0) imm

abbrev pub bpf_jcc_reg : ℕ → ℕ → ℕ → ℤ → Bytes
bpf_jcc_reg opcode dst src off = bpf_insn opcode dst src off (pos 0)

abbrev pub bpf_jcc_imm : ℕ → ℕ → ℤ → ℤ → Bytes
bpf_jcc_imm opcode dst imm off = bpf_insn opcode dst 0 off imm

abbrev pub bpf_ja : ℤ → Bytes
bpf_ja off = bpf_insn 0x05 0 0 off (pos 0)

abbrev pub bpf_atomic_add : ℕ → ℕ → ℤ → Bytes
bpf_atomic_add dst src off = bpf_insn 0xdb dst src off (pos 0)

abbrev pub bpf_to_be : ℕ → ℤ → Bytes
bpf_to_be dst width = bpf_insn 0xdc dst 0 (pos 0) width

-- A constant of 64 bits in two places: its low and its high word, each cast to `i32`.
abbrev pub bpf_ld_imm64 : ℕ → ℕ → Bytes
bpf_ld_imm64 dst imm =
    bpf_insn 0x18 dst 0 (pos 0) (as_i32 (pos imm))
    ++ bpf_insn 0x00 0 0 (pos 0) (as_i32 (pos (imm / 2 ^ 32)))

-- The wide load of a map, in two places.
abbrev pub bpf_ld_map_fd : ℕ → ℤ → Bytes
bpf_ld_map_fd dst fake_fd = bpf_insn 0x18 dst 1 (pos 0) fake_fd ++ bpf_insn 0x00 0 0 (pos 0) (pos 0)

-- `out` and `relocs`, which every emitter extends.
pub record Code : Type 0 where
  pub out : Bytes
  pub relocs : List (ℕ × String)

unfoldable pub extend : Bytes → Code → Code
extend bytes c = record c { out = c.out ++ bytes }

unfoldable pub emit_kfunc_call : String → Code → Code
emit_kfunc_call name c =
    extend (bpf_insn 0x85 0 2 (pos 0) (pos 0))
      (record c { relocs = c.relocs ++ (as_u32 (length c.out / 8), name) ∷ [] })

abbrev pub ringbuf_fake_fd : ℤ
ringbuf_fake_fd = pos 100

-- How many places are emitted, and the code.
unfoldable pub emit_record_reserve : ℤ → Bool → Code → ℕ × Code
emit_record_reserve size use_shmem c =
    if use_shmem
    then (2, emit_kfunc_call "bifrost_kfunc_shmem_reserve" (extend (bpf_mov64_imm 1 size) c))
    else (
      5,
      extend (bpf_call (pos 131)) (
          extend (bpf_mov64_imm 3 (pos 0))
            (extend (bpf_mov64_imm 2 size) (extend (bpf_ld_map_fd 1 ringbuf_fake_fd) c))),
    )

unfoldable pub emit_record_submit : ℕ → Bool → Bool → Code → Code
emit_record_submit ptr_reg use_shmem kick c =
    let moved = extend (bpf_mov64_reg 1 ptr_reg) c in
    let submitted =
      if use_shmem
      then emit_kfunc_call "bifrost_kfunc_shmem_submit" moved
      else extend (bpf_call (pos 132)) (extend (bpf_mov64_imm 2 (pos 0)) moved) in
    if kick then emit_kfunc_call "bifrost_kfunc_shmem_kick" submitted else submitted

-- LDGS_SCRATCH_BASE + (r - 1) * 8, which is below 0 for the registers up to r15
abbrev pub spill_slot : ℕ → ℤ
spill_slot r = negsuc (119 - (r - 1) * 8)

-- The loop `for r in first..first + n` of the stores.
unfoldable pub spill : ℕ → ℕ → Code → Code
spill r zero c = c
spill r (suc n) c = spill (suc r) n (extend (bpf_stx_dw 10 r (spill_slot r)) c)

-- The loop of the loads, which skips `dst`.
unfoldable pub restore : ℕ → ℕ → ℕ → Code → Code
restore dst r zero c = c
restore dst r (suc n) c =
    restore dst (suc r) n (if r == dst then c else extend (bpf_ldx_dw r 10 (spill_slot r)) c)

unfoldable pub take_result : ℕ → Code → Code
take_result dst c = if dst == 0 then c else extend (bpf_mov64_reg dst 0) c

unfoldable pub emit_helper_call_difo : ℤ → ℕ → Code → Code
emit_helper_call_difo helper_id dst c =
    take_result dst (restore dst 1 5 (extend (bpf_call helper_id) (spill 1 5 c)))

-- TUPLE_STACK_BASE
abbrev pub tuple_slot : ℕ → ℤ
tuple_slot arg = negsuc (415 + arg * 8)

unfoldable pub emit_single_arg_kfunc_subr : ℕ → String → Code → Code
emit_single_arg_kfunc_subr dst name c =
    let called = emit_kfunc_call name (
      extend (bpf_ldx_dw 1 10 (tuple_slot 0))
        (extend (bpf_stx_dw 10 1 (spill_slot 1)) (spill 2 4 c))) in
    let restored = restore dst 2 4 called in
    take_result dst
      (if dst == 1 then restored else extend (bpf_ldx_dw 1 10 (spill_slot 1)) restored)

unfoldable pub emit_two_arg_kfunc_subr : ℕ → String → Code → Code
emit_two_arg_kfunc_subr dst name c = take_result dst (
    restore dst 3 3 (
      emit_kfunc_call name (
        extend (bpf_ldx_dw 2 10 (tuple_slot 1))
          (extend (bpf_ldx_dw 1 10 (tuple_slot 0)) (spill 3 3 c)))))

unfoldable pub emit_three_arg_kfunc_subr : ℕ → String → Code → Code
emit_three_arg_kfunc_subr dst name c = take_result dst (
    restore dst 4 2 (
      emit_kfunc_call name (
        extend (bpf_ldx_dw 3 10 (tuple_slot 2)) (
          extend (bpf_ldx_dw 2 10 (tuple_slot 1))
            (extend (bpf_ldx_dw 1 10 (tuple_slot 0)) (spill 4 2 c))))))

-- `r0 = 0; exit`, with which lower/action.rs ends a program
unfoldable pub end_program : Code → Code
end_program c = extend bpf_exit (extend (bpf_mov64_imm 0 (pos 0)) c)
