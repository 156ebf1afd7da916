-- ===== src/Host/Emit/Runs.antt =====
-- A reservation, a helper and a kernel function, and the theorems at concrete inputs.
use project_bifrost.Base.{
  ◌≡◌, refl, arith, List, [], ◌∷◌, ◌++◌, le_bytes, true, false, some, pos, negsuc,
}
use project_bifrost.Lower.Error.{ok}
use project_bifrost.Host.Verify.{Insn, fields_at, static_check}
use project_bifrost.Host.Emit.{end_program, emit_kfunc_call, extend, bpf_insn}
use project_bifrost.Host.Emit.Decode.{bytes_of, fields_at-bytes_of}
use project_bifrost.Host.Emit.Made.{length-bytes_of}
use project_bifrost.Host.Emit.Sequences.{
  Emission, reserve, submit, helper_call, single_arg, emitted_all, emitted_all-static_check,
}

abbrev store : Insn
store = record { opc = 0x7b; dst = 10; src = 3; off = negsuc 103; imm = pos 0 }

abbrev ret : Insn
ret = record { opc = 0x95; dst = 0; src = 0; off = pos 0; imm = pos 0 }

fields_at-bytes_of_example : fields_at (bytes_of ret ++ (bytes_of store ++ [])) 1 ≡ store
fields_at-bytes_of_example =
    fields_at-bytes_of (bytes_of ret) [] 1 store (length-bytes_of ret)
      (omega arith, omega arith, omega arith, omega arith, omega arith, omega arith)

abbrev emissions : List Emission
emissions =
    reserve (pos 64) false
    ∷ helper_call (pos 14) 2
    ∷ single_arg 1 "bifrost_kfunc_strlen"
    ∷ submit 9 true true
    ∷ []

emitted_all-static_check_example :
    static_check (end_program (emitted_all emissions (record { out = []; relocs = [] }))).out
    ≡ some (ok tt)
emitted_all-static_check_example = emitted_all-static_check emissions (
  (omega arith, omega arith),
  ((refl, (omega arith, omega arith), omega arith), (omega arith, (omega arith, tt))),
)

second_call_at_two :
    (emit_kfunc_call "b" (emit_kfunc_call "a" (record { out = bytes_of ret; relocs = [] }))).relocs
    ≡ (1, "a") ∷ (2, "b") ∷ []
unfolding emit_kfunc_call extend bpf_insn le_bytes
second_call_at_two = refl
