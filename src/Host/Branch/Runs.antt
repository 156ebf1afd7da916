-- ===== src/Host/Branch/Runs.antt =====
-- Two branches, one forward and one back, and the theorem at a concrete input.
use project_bifrost.Base.{◌≡◌, refl, arith, List, [], ◌∷◌, ◌++◌, le_bytes, err, pos}
use project_bifrost.Host.Emit.{bpf_insn, bpf_ja, bpf_exit, bpf_jcc_imm}
use project_bifrost.Host.Branch.{
  bad_dif_instr_count, LowerState, fixup_branches, fixup_each, fixup_branch, get,
}
use project_bifrost.Host.Branch.Fixup.{Jump, Lands, fixup_branches-Lands}

-- `if r1 == 0 goto 2; goto 0; exit`, with both branches yet to be patched
abbrev state : LowerState
state = record {
  body = bpf_jcc_imm 0x15 1 (pos 0) (pos 0) ++ (bpf_ja (pos 0) ++ bpf_exit);
  insn_offsets = 0 ∷ 8 ∷ 16 ∷ [];
  pending_branches = (0, 2) ∷ (8, 0) ∷ [];
}

abbrev jumps : List Jump
jumps =
    record { at = 0; dif_target = 2; goes = 2 } ∷ record { at = 1; dif_target = 0; goes = 0 } ∷ []

fixup_branches-Lands_example : Lands jumps state (fixup_branches state)
unfolding get bpf_insn le_bytes
fixup_branches-Lands_example =
    fixup_branches-Lands state jumps refl
      (
        (refl, (omega arith, omega arith), omega arith),
        ((refl, (omega arith, omega arith), omega arith), tt),
      )
      (((λ e. omega (arith, e)), tt), (tt, tt))

unknown_target :
    fixup_branches (record state { pending_branches = (0, 3) ∷ [] }) ≡ err bad_dif_instr_count
unfolding fixup_branches fixup_each fixup_branch get
unknown_target = refl
