-- ===== src/Host/Branch/Patch.antt =====
-- Bytes that are set, and the instructions that they are read in.
use project_bifrost.Base.{
  ℕ, zero, suc, ◌+◌, ◌*◌, ◌<◌, ◌≡◌, ◌≢◌, refl, arith, ap, ◌∙◌, sym, [], ◌∷◌, length, drop, Bytes,
  ◌/◌, ◌%◌, pos, as_i16, as_i32,
}
use project_bifrost.Host.Verify.{Insn, fields_at, insn_at, byte_of}
use project_bifrost.Host.Branch.{set_byte}

pub byte_of-drop : (n k : ℕ) (body : Bytes) → byte_of (drop n body) k ≡ byte_of body (n + k)
unfolding byte_of
byte_of-drop zero k body = ap (λ (t : ℕ). byte_of body t) (let e : k ≡ 0 + k = omega arith in e)
byte_of-drop (suc n) k [] = refl
byte_of-drop (suc n) k (x ∷ xs) =
    byte_of-drop n k xs
    ∙ ap (λ (t : ℕ). byte_of (x ∷ xs) t) (let e : suc (n + k) ≡ suc n + k = omega arith in e)

pub byte_of-set_byte :
    (k b : ℕ) (body : Bytes) → k < length body → byte_of (set_byte k b body) k ≡ b
unfolding byte_of set_byte
byte_of-set_byte k b [] lt = absurd (omega arith)
byte_of-set_byte zero b (x ∷ xs) lt = refl
byte_of-set_byte (suc k) b (x ∷ xs) lt = byte_of-set_byte k b xs (omega arith)

pub byte_of-set_byte_other :
    (k b j : ℕ) (body : Bytes) → k ≢ j → byte_of (set_byte k b body) j ≡ byte_of body j
unfolding byte_of set_byte
byte_of-set_byte_other k b j [] ne = refl
byte_of-set_byte_other zero b zero (x ∷ xs) ne = absurd (ne refl)
byte_of-set_byte_other zero b (suc j) (x ∷ xs) ne = refl
byte_of-set_byte_other (suc k) b zero (x ∷ xs) ne = refl
byte_of-set_byte_other (suc k) b (suc j) (x ∷ xs) ne =
    byte_of-set_byte_other k b j xs (λ e. ne (ap suc e))

pub length-set_byte : (k b : ℕ) (body : Bytes) → length (set_byte k b body) ≡ length body
unfolding set_byte
length-set_byte k b [] = refl
length-set_byte zero b (x ∷ xs) = refl
length-set_byte (suc k) b (x ∷ xs) = ap suc (length-set_byte k b xs)

insn_of : (b₀ b₁ b₂ b₃ b₄ b₅ b₆ b₇ : ℕ) → Insn
insn_of b₀ b₁ b₂ b₃ b₄ b₅ b₆ b₇ = record {
  opc = b₀;
  dst = b₁ % 16;
  src = b₁ / 16 % 16;
  off = as_i16 (b₂ + 256 * b₃);
  imm = as_i32 (pos (b₄ + 256 * b₅ + 65536 * b₆ + 16777216 * b₇));
}

-- The fields of an instruction come from its eight bytes.
fields_at-insn_of :
    (body : Bytes) (k : ℕ)
    → fields_at body k
      ≡ insn_of
          (byte_of body (k * 8 + 0))
          (byte_of body (k * 8 + 1))
          (byte_of body (k * 8 + 2))
          (byte_of body (k * 8 + 3))
          (byte_of body (k * 8 + 4))
          (byte_of body (k * 8 + 5))
          (byte_of body (k * 8 + 6))
          (byte_of body (k * 8 + 7))
unfolding fields_at insn_at insn_of
fields_at-insn_of body k =
    λ t. insn_of (at 0 t) (at 1 t) (at 2 t) (at 3 t) (at 4 t) (at 5 t) (at 6 t) (at 7 t)
  where
    at : (j : ℕ) → byte_of (drop (k * 8) body) j ≡ byte_of body (k * 8 + j)
    at j = byte_of-drop (k * 8) j body

pub same_fields :
    (body body' : Bytes) (k : ℕ)
    → ((j : ℕ) → j < 8 → byte_of body' (k * 8 + j) ≡ byte_of body (k * 8 + j))
    → fields_at body' k ≡ fields_at body k
same_fields body body' k h =
    fields_at-insn_of body' k
    ∙ (λ t.
        insn_of (h 0 (omega arith) t) (h 1 (omega arith) t) (h 2 (omega arith) t)
          (h 3 (omega arith) t) (h 4 (omega arith) t) (h 5 (omega arith) t) (h 6 (omega arith) t)
          (h 7 (omega arith) t))
    ∙ sym (fields_at-insn_of body k)

pub off_of :
    (body : Bytes) (k : ℕ)
    → (fields_at body k).off ≡ as_i16 (byte_of body (k * 8 + 2) + 256 * byte_of body (k * 8 + 3))
unfolding insn_of
off_of body k = ap (λ (i : Insn). i.off) (fields_at-insn_of body k)
