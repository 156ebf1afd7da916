-- ===== src/Host/Emit/Sequences.antt =====
-- Every emitter keeps code made of accepted pieces.
use project_bifrost.Base.{
  ℕ, zero, suc, ◌+◌, ◌-◌, ◌*◌, ◌≤◌, ◌<◌, ◌≡◌, inl, inr, refl, arith, String, List, [], ◌∷◌, ◌++◌,
  Bytes, All, length-append, sym, ap, subst, Bool, true, false, Bool-cases, ◌==◌, ℤ, pos, length,
  some,
}
use project_bifrost.Lower.Error.{ok}
use project_bifrost.Host.Verify.{static_check}
use project_bifrost.Host.Verify.Rules.{IsKnown}
use project_bifrost.Host.Emit.{
  Code, extend, end_program, bpf_exit, bpf_mov64_imm, bpf_ldx_dw, bpf_stx_dw, emit_kfunc_call,
  emit_record_reserve, emit_record_submit, spill_slot, spill, restore, take_result, tuple_slot,
  emit_helper_call_difo, emit_single_arg_kfunc_subr, emit_two_arg_kfunc_subr,
  emit_three_arg_kfunc_subr,
}
use project_bifrost.Host.Emit.Made.{Piece, program, length-bytes_of, program-static_check}
use project_bifrost.Host.Emit.Keeps.{
  IsMade, IsImm, move-IsMade, imm-IsMade, call-IsMade, store-IsMade, load-IsMade, kfunc-IsMade,
  map-IsMade, exit-IsMade,
}

spill-IsMade : (r n : ℕ) (c : Code) → r + n ≤ 11 → IsMade c → IsMade (spill r n c)
unfolding spill
spill-IsMade r zero c le m = m
spill-IsMade r (suc n) c le m =
    spill-IsMade (suc r) n _ (omega arith)
      (store-IsMade r (119 - (r - 1) * 8) (omega arith) (omega arith) m)

restore-IsMade : (dst r n : ℕ) (c : Code) → r + n ≤ 11 → IsMade c → IsMade (restore dst r n c)
unfolding restore
restore-IsMade dst r zero c le m = m
restore-IsMade dst r (suc n) c le m =
    restore-IsMade dst (suc r) n _ (omega arith) (elim (Bool-cases (r == dst)) [
      | inl a ↦ rw a m
      | inr a ↦ rw a (load-IsMade r (119 - (r - 1) * 8) (omega arith) (omega arith) m)
    ])

take_result-IsMade : (dst : ℕ) (c : Code) → dst ≤ 10 → IsMade c → IsMade (take_result dst c)
unfolding take_result
take_result-IsMade dst c le m = elim (Bool-cases (dst == 0)) [
  | inl a ↦ rw a m
  | inr a ↦ rw a (move-IsMade dst 0 le (omega arith) m)
]

zero-IsImm : IsImm (pos 0)
zero-IsImm = (omega arith, omega arith)

reserve-IsMade :
    (size : ℤ) (use_shmem : Bool) (c : Code)
    → IsImm size
    → IsMade c
    → IsMade (emit_record_reserve size use_shmem c).1
unfolding emit_record_reserve
reserve-IsMade size true c h m =
    kfunc-IsMade "bifrost_kfunc_shmem_reserve" (imm-IsMade 1 size (omega arith) h m)
reserve-IsMade size false c h m =
    call-IsMade (pos 131) refl (omega arith, omega arith)
      (imm-IsMade 3 (pos 0) (omega arith) zero-IsImm (
        imm-IsMade 2 size (omega arith) h
          (map-IsMade 1 (pos 100) (omega arith) (omega arith, omega arith) m)))

submit-IsMade :
    (ptr_reg : ℕ) (use_shmem kick : Bool) (c : Code)
    → ptr_reg ≤ 10
    → IsMade c
    → IsMade (emit_record_submit ptr_reg use_shmem kick c)
unfolding emit_record_submit
submit-IsMade ptr_reg true true c h m =
    kfunc-IsMade "bifrost_kfunc_shmem_kick"
      (kfunc-IsMade "bifrost_kfunc_shmem_submit" (move-IsMade 1 ptr_reg (omega arith) h m))
submit-IsMade ptr_reg true false c h m =
    kfunc-IsMade "bifrost_kfunc_shmem_submit" (move-IsMade 1 ptr_reg (omega arith) h m)
submit-IsMade ptr_reg false true c h m = kfunc-IsMade "bifrost_kfunc_shmem_kick" (
    call-IsMade (pos 132) refl (omega arith, omega arith)
      (imm-IsMade 2 (pos 0) (omega arith) zero-IsImm (move-IsMade 1 ptr_reg (omega arith) h m)))
submit-IsMade ptr_reg false false c h m =
    call-IsMade (pos 132) refl (omega arith, omega arith)
      (imm-IsMade 2 (pos 0) (omega arith) zero-IsImm (move-IsMade 1 ptr_reg (omega arith) h m))

helper-IsMade :
    (helper_id : ℤ) (dst : ℕ) (c : Code)
    → IsKnown helper_id
    → IsImm helper_id
    → dst ≤ 10
    → IsMade c
    → IsMade (emit_helper_call_difo helper_id dst c)
unfolding emit_helper_call_difo
helper-IsMade helper_id dst c known range h m = take_result-IsMade dst _ h (
    restore-IsMade dst 1 5 _ (omega arith)
      (call-IsMade helper_id known range (spill-IsMade 1 5 c (omega arith) m)))

single_arg-IsMade :
    (dst : ℕ) (name : String) (c : Code)
    → dst ≤ 10
    → IsMade c
    → IsMade (emit_single_arg_kfunc_subr dst name c)
unfolding emit_single_arg_kfunc_subr
single_arg-IsMade dst name c h m = take_result-IsMade dst _ h (elim (Bool-cases (dst == 1)) [
  | inl a ↦ rw a restored
  | inr a ↦ rw a (load-IsMade 1 119 (omega arith) (omega arith) restored)
])
  where
    called : IsMade (
        emit_kfunc_call name (
          extend
            (bpf_ldx_dw 1 10 (tuple_slot 0))
            (extend (bpf_stx_dw 10 1 (spill_slot 1)) (spill 2 4 c))))
    called = kfunc-IsMade name (
        load-IsMade 1 415 (omega arith) (omega arith)
          (store-IsMade 1 119 (omega arith) (omega arith) (spill-IsMade 2 4 c (omega arith) m)))

    restored : IsMade (
        restore dst 2 4 (
          emit_kfunc_call name (
            extend
              (bpf_ldx_dw 1 10 (tuple_slot 0))
              (extend (bpf_stx_dw 10 1 (spill_slot 1)) (spill 2 4 c)))))
    restored = restore-IsMade dst 2 4 _ (omega arith) called

two_arg-IsMade :
    (dst : ℕ) (name : String) (c : Code)
    → dst ≤ 10
    → IsMade c
    → IsMade (emit_two_arg_kfunc_subr dst name c)
unfolding emit_two_arg_kfunc_subr
two_arg-IsMade dst name c h m = take_result-IsMade dst _ h (
    restore-IsMade dst 3 3 _ (omega arith) (
      kfunc-IsMade name (
        load-IsMade 2 423 (omega arith) (omega arith)
          (load-IsMade 1 415 (omega arith) (omega arith) (spill-IsMade 3 3 c (omega arith) m)))))

three_arg-IsMade :
    (dst : ℕ) (name : String) (c : Code)
    → dst ≤ 10
    → IsMade c
    → IsMade (emit_three_arg_kfunc_subr dst name c)
unfolding emit_three_arg_kfunc_subr
three_arg-IsMade dst name c h m = take_result-IsMade dst _ h (
    restore-IsMade dst 4 2 _ (omega arith) (
      kfunc-IsMade name (
        load-IsMade 3 431 (omega arith) (omega arith) (
          load-IsMade 2 423 (omega arith) (omega arith)
            (load-IsMade 1 415 (omega arith) (omega arith) (spill-IsMade 4 2 c (omega arith) m))))))

-- A call of an emitter, with its arguments.
pub data Emission : Type 0 where
  reserve : (size : ℤ) (use_shmem : Bool) → Emission
  submit : (ptr_reg : ℕ) (use_shmem kick : Bool) → Emission
  helper_call : (helper_id : ℤ) (dst : ℕ) → Emission
  single_arg : (dst : ℕ) (name : String) → Emission
  two_arg : (dst : ℕ) (name : String) → Emission
  three_arg : (dst : ℕ) (name : String) → Emission

abbrev pub emitted : Emission → Code → Code
emitted (reserve size use_shmem) c = (emit_record_reserve size use_shmem c).1
emitted (submit ptr_reg use_shmem kick) c = emit_record_submit ptr_reg use_shmem kick c
emitted (helper_call helper_id dst) c = emit_helper_call_difo helper_id dst c
emitted (single_arg dst name) c = emit_single_arg_kfunc_subr dst name c
emitted (two_arg dst name) c = emit_two_arg_kfunc_subr dst name c
emitted (three_arg dst name) c = emit_three_arg_kfunc_subr dst name c

-- Sizes and helpers are `i32`s, helpers are known, and registers are at most r10.
abbrev pub IsCallable : Emission → Type 0
IsCallable (reserve size use_shmem) = IsImm size
IsCallable (submit ptr_reg use_shmem kick) = ptr_reg ≤ 10
IsCallable (helper_call helper_id dst) = IsKnown helper_id × IsImm helper_id × (dst ≤ 10)
IsCallable (single_arg dst name) = dst ≤ 10
IsCallable (two_arg dst name) = dst ≤ 10
IsCallable (three_arg dst name) = dst ≤ 10

-- Each emitter keeps code made of accepted pieces.
pub emitted-IsMade : (e : Emission) (c : Code) → IsCallable e → IsMade c → IsMade (emitted e c)
emitted-IsMade (reserve size use_shmem) c h = reserve-IsMade size use_shmem c h
emitted-IsMade (submit ptr_reg use_shmem kick) c h = submit-IsMade ptr_reg use_shmem kick c h
emitted-IsMade (helper_call helper_id dst) c (known, range, h) =
    helper-IsMade helper_id dst c known range h
emitted-IsMade (single_arg dst name) c h = single_arg-IsMade dst name c h
emitted-IsMade (two_arg dst name) c h = two_arg-IsMade dst name c h
emitted-IsMade (three_arg dst name) c h = three_arg-IsMade dst name c h

-- The emitters in turn, and the end that the lowering gives every program.
abbrev pub emitted_all : List Emission → Code → Code
emitted_all [] c = c
emitted_all (e ∷ es) c = emitted_all es (emitted e c)

emitted_all-IsMade :
    (es : List Emission) (c : Code) → All IsCallable es → IsMade c → IsMade (emitted_all es c)
emitted_all-IsMade [] c h m = m
emitted_all-IsMade (e ∷ es) c (h, hs) m =
    emitted_all-IsMade es (emitted e c) hs (emitted-IsMade e c h m)

made-static_check : (c : Code) → 0 < length c.out → IsMade c → static_check c.out ≡ some (ok tt)
made-static_check c more m =
    subst (λ t. static_check t ≡ some (ok tt)) (sym m.same)
      (program-static_check m.pieces m.fine (some_piece m.pieces m.same))
  where
    some_piece : (ps : List Piece) → c.out ≡ program ps → 0 < length ps
    some_piece [] e = absurd (omega (arith, ap (λ (t : Bytes). length t) e))
    some_piece (p ∷ ps) e = omega arith

-- What emitters called in any number and order leave in an empty program, ended by `r0 = 0; exit`,
-- is accepted by the static check, when sizes and helpers are in the range of an i32, helpers are
-- known, and registers are at most r10.
pub emitted_all-static_check :
    (es : List Emission)
    → All IsCallable es
    → static_check (end_program (emitted_all es (record { out = []; relocs = [] }))).out
      ≡ some (ok tt)
unfolding end_program extend
emitted_all-static_check es h =
    made-static_check (end_program body) long (
      exit-IsMade (imm-IsMade 0 (pos 0) (omega arith) zero-IsImm (emitted_all-IsMade es _ h empty)))
  where
    empty : IsMade (record { out = []; relocs = [] })
    empty = record { pieces = []; fine = tt; same = refl }

    body : Code
    body = emitted_all es (record { out = []; relocs = [] })

    long : 0 < length (end_program body).out
    long = omega (
      arith,
      length-append (body.out ++ bpf_mov64_imm 0 (pos 0)) bpf_exit,
      length-bytes_of (record { opc = 0x95; dst = 0; src = 0; off = pos 0; imm = pos 0 }),
    )
