-- ===== src/Host/Branch/Targets.antt =====
-- Patched branches go to the places that were recorded.
use project_bifrost.Base.{
  ℕ, ◌+◌, ◌-◌, ◌*◌, ◌/◌, ◌%◌, ◌^◌, ◌≤◌, ◌<◌, ◌≡◌, ◌≢◌, arith, ap, ◌∙◌, sym, subst, length, Bytes,
  Outcome, ok, err, panic, ℤ, pos, negsuc, ◌+ℤ◌, ◌≤ℤ◌, ◌<ℤ◌, as_i16, false, ltb, if◌then◌else◌,
}
use project_bifrost.Host.Verify.{fields_at, byte_of, target_of}
use project_bifrost.Host.Emit.{complement}
use project_bifrost.Host.Emit.Decode.{off_back}
use project_bifrost.Host.Branch.{LoweringError, slot_off, set_byte, patch}
use project_bifrost.Host.Branch.Patch.{
  byte_of-set_byte, byte_of-set_byte_other, length-set_byte, same_fields, off_of,
}

-- The branch at `p` and its target `q`, in instructions, are within an i16 of each other.
abbrev pub IsNear : ℕ → ℕ → Type 0
IsNear p q = (p + 1 ≤ q + 2 ^ 15) × (q < p + 1 + 2 ^ 15)

slot_off_lem : (p q : ℕ) → pos (p + 1) +ℤ slot_off (q * 8) (p * 8) ≡ pos q
unfolding ◌+ℤ◌
slot_off_lem p q = ground arith

slot_off_low : (p q : ℕ) → IsNear p q → negsuc (2 ^ 15 - 1) ≤ℤ slot_off (q * 8) (p * 8)
unfolding ◌+ℤ◌
slot_off_low p q h = ground arith

slot_off_high : (p q : ℕ) → IsNear p q → slot_off (q * 8) (p * 8) <ℤ pos (2 ^ 15)
unfolding ◌+ℤ◌
slot_off_high p q h = ground arith

-- What a patch at the place `p` makes of the body.
pub record IsPatched (p q : ℕ) (body body' : Bytes) : Type 0 where
  pub target : target_of p (fields_at body' p) ≡ pos q
  pub others : (k : ℕ) → k ≢ p → fields_at body' k ≡ fields_at body k
  pub size : length body' ≡ length body

abbrev pub Patches : ℕ → ℕ → Bytes → Outcome LoweringError Bytes → Type 0
Patches p q body (ok body') = IsPatched p q body body'
Patches p q body (err e) = ⊥
Patches p q body panic = ⊥

module _ (p q : ℕ) (body : Bytes) (near : IsNear p q) (room : p * 8 + 8 ≤ length body) where
  abbrev x : ℕ
  x = complement (2 ^ 16) (slot_off (q * 8) (p * 8))

  abbrev lower : Bytes
  lower = set_byte (p * 8 + 2) (x % 256) body

  abbrev patched : Bytes
  patched = set_byte (p * 8 + 3) (x / 256 % 256) lower

  byte_2 : byte_of patched (p * 8 + 2) ≡ x % 256
  byte_2 =
      byte_of-set_byte_other (p * 8 + 3) (x / 256 % 256) (p * 8 + 2) lower (λ e. omega (arith, e))
      ∙ byte_of-set_byte (p * 8 + 2) (x % 256) body (omega arith)

  byte_3 : byte_of patched (p * 8 + 3) ≡ x / 256 % 256
  byte_3 =
      byte_of-set_byte (p * 8 + 3) (x / 256 % 256) lower
        (omega (arith, length-set_byte (p * 8 + 2) (x % 256) body))

  off_patched : (fields_at patched p).off ≡ slot_off (q * 8) (p * 8)
  off_patched =
      off_of patched p
      ∙ (λ t. as_i16 (byte_2 t + 256 * byte_3 t))
      ∙ off_back (slot_off (q * 8) (p * 8)) (slot_off_low p q near) (slot_off_high p q near)

  other_byte : (i : ℕ) → i ≢ p * 8 + 2 → i ≢ p * 8 + 3 → byte_of patched i ≡ byte_of body i
  other_byte i ne ne' =
      byte_of-set_byte_other (p * 8 + 3) (x / 256 % 256) i lower (λ e. ne' (sym e))
      ∙ byte_of-set_byte_other (p * 8 + 2) (x % 256) i body (λ e. ne (sym e))

  patched-IsPatched : IsPatched p q body patched
  patched-IsPatched = record {
    target = ap (λ (o : ℤ). pos (p + 1) +ℤ o) off_patched ∙ slot_off_lem p q;
    others = λ k ne.
        same_fields body patched k
          (λ j lt. other_byte (k * 8 + j) (λ e. ne (omega arith)) (λ e. ne (omega arith)));
    size =
        length-set_byte (p * 8 + 3) (x / 256 % 256) lower
        ∙ length-set_byte (p * 8 + 2) (x % 256) body;
  }

  pub patch-Patches : Patches p q body (patch (p * 8) (slot_off (q * 8) (p * 8)) body)
  unfolding patch
  patch-Patches =
      subst (λ b. Patches p q body (if b then panic else ok patched)) (sym inside) patched-IsPatched
    where
      inside : ltb (length body) (p * 8 + 4) ≡ false
      inside = ground arith
