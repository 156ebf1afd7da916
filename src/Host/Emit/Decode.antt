-- ===== src/Host/Emit/Decode.antt =====
-- An encoded instruction is read back by the static check.
use project_bifrost.Base.{
  ℕ, ◌+◌, ◌-◌, ◌*◌, ◌/◌, ◌%◌, ◌^◌, ◌<◌, ◌≡◌, arith, ap, ◌∙◌, subst, ◌++◌, Bytes, length, drop,
  drop-append_length, le_bytes, ℤ, pos, negsuc, ◌≤ℤ◌, ◌<ℤ◌, as_i16, as_i32,
}
use project_bifrost.Host.Verify.{Insn, fields_at, insn_at, byte_of}
use project_bifrost.Host.Emit.{bpf_insn, complement}

-- The ranges of the fields.
abbrev pub IsInsn : Insn → Type 0
IsInsn i =
    (i.dst < 16)
    × (i.src < 16)
    × (negsuc (2 ^ 15 - 1) ≤ℤ i.off)
    × (i.off <ℤ pos (2 ^ 15))
    × (negsuc (2 ^ 31 - 1) ≤ℤ i.imm)
    × (i.imm <ℤ pos (2 ^ 31))

abbrev pub bytes_of : Insn → Bytes
bytes_of i = bpf_insn i.opc i.dst i.src i.off i.imm

pub off_back :
    (off : ℤ)
    → negsuc (2 ^ 15 - 1) ≤ℤ off
    → off <ℤ pos (2 ^ 15)
    → as_i16 (complement (2 ^ 16) off % 256 + 256 * (complement (2 ^ 16) off / 256 % 256)) ≡ off
off_back (pos n) h k = ground arith
off_back (negsuc n) h k = ground arith

imm_back :
    (imm : ℤ)
    → negsuc (2 ^ 31 - 1) ≤ℤ imm
    → imm <ℤ pos (2 ^ 31)
    → as_i32 (
        pos (
          complement (2 ^ 32) imm % 256
          + 256 * (complement (2 ^ 32) imm / 256 % 256)
          + 65536 * (complement (2 ^ 32) imm / 256 / 256 % 256)
          + 16777216 * (complement (2 ^ 32) imm / 256 / 256 / 256 % 256)))
      ≡ imm
imm_back (pos n) h k = ground arith
imm_back (negsuc n) h k = ground arith

-- An instruction whose registers are below 16 and whose offset and immediate are an i16 and an
-- i32, encoded at a place of a program, is read back there by the static check.
pub fields_at-bytes_of :
    (before after : Bytes) (k : ℕ) (i : Insn)
    → length before ≡ k * 8
    → IsInsn i
    → fields_at (before ++ (bytes_of i ++ after)) k ≡ i
unfolding fields_at insn_at byte_of bpf_insn le_bytes
fields_at-bytes_of before after k i at (dst, src, off_low, off_high, imm_low, imm_high) =
    ap (λ (t : Bytes). fields t) here ∙ (λ t. record {
      opc = i.opc;
      dst = same_dst t;
      src = same_src t;
      off = off_back i.off off_low off_high t;
      imm = imm_back i.imm imm_low imm_high t;
    })
  where
    same_dst : (i.src % 16 * 16 + i.dst % 16) % 16 ≡ i.dst
    same_dst = omega arith

    same_src : (i.src % 16 * 16 + i.dst % 16) / 16 % 16 ≡ i.src
    same_src = omega arith

    fields : Bytes → Insn
    fields t = fields_at t 0

    here : drop (k * 8) (before ++ (bytes_of i ++ after)) ≡ bytes_of i ++ after
    here =
        subst (λ n. drop n (before ++ (bytes_of i ++ after)) ≡ bytes_of i ++ after) at
          (drop-append_length before (bytes_of i ++ after))
