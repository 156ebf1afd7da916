-- ===== src/Host/Emit/Keeps.antt =====
-- Code made of accepted pieces stays so when an instruction is emitted.
use project_bifrost.Base.{
  ℕ, ◌-◌, ◌^◌, ◌≤◌, ◌<◌, ◌≡◌, arith, sym, ap, ◌∙◌, String, List, [], ◌∷◌, ◌++◌, append_assoc,
  append-nil, Bytes, All, ℤ, pos, negsuc, ◌≤ℤ◌, ◌<ℤ◌,
}
use project_bifrost.Host.Verify.{Insn}
use project_bifrost.Host.Verify.Rules.{IsKnown}
use project_bifrost.Host.Emit.{
  Code, extend, bpf_mov64_reg, bpf_mov64_imm, bpf_call, bpf_exit, bpf_stx_dw, bpf_ldx_dw,
  bpf_ld_map_fd, emit_kfunc_call,
}
use project_bifrost.Host.Emit.Made.{Piece, one, wide, piece_bytes, IsPlain, IsPiece, program}

-- Code that consists of pieces.
pub record IsMade (c : Code) : Type 0 where
  pub pieces : List Piece
  pub fine : All IsPiece pieces
  pub same : c.out ≡ program pieces

abbrev pub IsImm : ℤ → Type 0
IsImm imm = (negsuc (2 ^ 31 - 1) ≤ℤ imm) × (imm <ℤ pos (2 ^ 31))

program-append :
    (ps : List Piece) (p : Piece) → program (ps ++ p ∷ []) ≡ program ps ++ piece_bytes p
program-append [] p = append-nil (piece_bytes p)
program-append (q ∷ ps) p =
    ap (λ (t : Bytes). piece_bytes q ++ t) (program-append ps p)
    ∙ sym (append_assoc (piece_bytes q) (program ps) (piece_bytes p))

fine-append :
    (ps : List Piece) (p : Piece) → All IsPiece ps → IsPiece p → All IsPiece (ps ++ p ∷ [])
fine-append [] p h k = (k, tt)
fine-append (q ∷ ps) p (h, hs) k = (h, fine-append ps p hs k)

extend-IsMade : (p : Piece) (c : Code) → IsPiece p → IsMade c → IsMade (extend (piece_bytes p) c)
unfolding extend
extend-IsMade p c h m = record {
  pieces = m.pieces ++ p ∷ [];
  fine = fine-append m.pieces p m.fine h;
  same = ap (λ (t : Bytes). t ++ piece_bytes p) m.same ∙ sym (program-append m.pieces p);
}

-- Instructions by their shape.
abbrev insn : (opc dst src : ℕ) (off imm : ℤ) → Insn
insn opc dst src off imm = record { opc = opc; dst = dst; src = src; off = off; imm = imm }

mov_reg-IsPlain : (dst src : ℕ) → dst ≤ 10 → src ≤ 10 → IsPlain (insn 0xbf dst src (pos 0) (pos 0))
mov_reg-IsPlain dst src h k = ground arith

mov_imm-IsPlain : (dst : ℕ) (imm : ℤ) → dst ≤ 10 → IsImm imm → IsPlain (insn 0xb7 dst 0 (pos 0) imm)
mov_imm-IsPlain dst imm h (low, high) = ground arith

call-IsPlain : (id : ℤ) → IsKnown id → IsImm id → IsPlain (insn 0x85 0 0 (pos 0) id)
call-IsPlain id known (low, high) = ground (arith, known)

exit-IsPlain : IsPlain (insn 0x95 0 0 (pos 0) (pos 0))
exit-IsPlain = ground arith

kfunc-IsPlain : IsPlain (insn 0x85 0 2 (pos 0) (pos 0))
kfunc-IsPlain = ground arith

store-IsPlain : (r n : ℕ) → r ≤ 10 → n < 512 → IsPlain (insn 0x7b 10 r (negsuc n) (pos 0))
store-IsPlain r n h k = ground arith

load-IsPlain : (r n : ℕ) → r ≤ 10 → n < 512 → IsPlain (insn 0x79 r 10 (negsuc n) (pos 0))
load-IsPlain r n h k = ground arith

module _ {c : Code} where
  pub move-IsMade :
      (dst src : ℕ) → dst ≤ 10 → src ≤ 10 → IsMade c → IsMade (extend (bpf_mov64_reg dst src) c)
  move-IsMade dst src h k =
      extend-IsMade (one (insn 0xbf dst src (pos 0) (pos 0))) c (mov_reg-IsPlain dst src h k)

  pub imm-IsMade :
      (dst : ℕ) (imm : ℤ)
      → dst ≤ 10
      → IsImm imm
      → IsMade c
      → IsMade (extend (bpf_mov64_imm dst imm) c)
  imm-IsMade dst imm h k = extend-IsMade (one _) c (mov_imm-IsPlain dst imm h k)

  pub call-IsMade : (id : ℤ) → IsKnown id → IsImm id → IsMade c → IsMade (extend (bpf_call id) c)
  call-IsMade id h k = extend-IsMade (one _) c (call-IsPlain id h k)

  pub store-IsMade :
      (r n : ℕ) → r ≤ 10 → n < 512 → IsMade c → IsMade (extend (bpf_stx_dw 10 r (negsuc n)) c)
  store-IsMade r n h k = extend-IsMade (one _) c (store-IsPlain r n h k)

  pub load-IsMade :
      (r n : ℕ) → r ≤ 10 → n < 512 → IsMade c → IsMade (extend (bpf_ldx_dw r 10 (negsuc n)) c)
  load-IsMade r n h k = extend-IsMade (one _) c (load-IsPlain r n h k)

  pub kfunc-IsMade : (name : String) → IsMade c → IsMade (emit_kfunc_call name c)
  unfolding emit_kfunc_call
  kfunc-IsMade name m =
      extend-IsMade (one _) _ kfunc-IsPlain
        (record { pieces = m.pieces; fine = m.fine; same = m.same })

  pub map-IsMade :
      (dst : ℕ) (fd : ℤ) → dst ≤ 10 → IsImm fd → IsMade c → IsMade (extend (bpf_ld_map_fd dst fd) c)
  map-IsMade dst fd h (low, high) =
      extend-IsMade (wide (insn 0x18 dst 1 (pos 0) fd) (insn 0x00 0 0 (pos 0) (pos 0))) c
        (ground arith)

  pub exit-IsMade : IsMade c → IsMade (extend bpf_exit c)
  exit-IsMade = extend-IsMade (one (insn 0x95 0 0 (pos 0) (pos 0))) c exit-IsPlain
