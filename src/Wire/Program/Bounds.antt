-- ===== src/Wire/Program/Bounds.antt =====
-- `decode_one_program` on any input.
use project_bifrost.Base.{ℕ, zero, suc, ◌+◌, ◌*◌, arith}
use project_bifrost.Wire.Decoder.Bounds.{
  Guarded, Guarded-pure, Guarded-fail, Guarded-need, Guarded-fail_if, Guarded-if, Guarded-Takes,
  Guarded-bind, Guarded-spanned, Takes-take, Takes-uint, Takes-skip,
}
use project_bifrost.Wire.Program.Decode.{
  decode_path, decode_symbol, decode_usdt, decode_profile_timer, decode_trailer, walk_kfunc_relocs,
  kfunc_relocs_section, walk_field_relocs, field_relocs_section, decode_field_section,
  decode_one_program,
}

decode_path-Guarded : Guarded 0 0 decode_path
unfolding decode_path
decode_path-Guarded = Guarded-need 0 4 0 _ (
    Guarded-Takes 0 4 0 0 4 _ (Takes-uint 4) (omega arith) (omega arith) λ n.
      Guarded-fail_if 0 0 _ _ (
        Guarded-need 0 (n + 8) 0 _ (
          Guarded-Takes 8 (n + 8) 0 0 n _ (Takes-take n) (omega arith) (omega arith) λ p.
            Guarded-Takes 0 8 0 0 8 _ (Takes-uint 8) (omega arith) (omega arith)
              λ o. Guarded-pure 0 _)))

decode_symbol-Guarded : Guarded 0 0 decode_symbol
unfolding decode_symbol
decode_symbol-Guarded = Guarded-need 0 4 0 _ (
    Guarded-Takes 0 4 0 0 4 _ (Takes-uint 4) (omega arith) (omega arith) λ n.
      Guarded-fail_if 0 0 _ _ (
        Guarded-need 0 (n + 4) 0 _ (
          Guarded-Takes 4 (n + 4) 0 0 n _ (Takes-take n) (omega arith) (omega arith) λ b.
            Guarded-Takes 0 4 0 0 4 _ (Takes-uint 4) (omega arith) (omega arith) λ m.
              Guarded-fail_if 0 0 _ _ (
                Guarded-need 0 m 0 _ (
                  Guarded-Takes 0 m 0 0 m _ (Takes-take m) (omega arith) (omega arith)
                    λ s. Guarded-pure 0 _)))))

decode_usdt-Guarded : Guarded 0 0 decode_usdt
unfolding decode_usdt
decode_usdt-Guarded = Guarded-need 0 4 0 _ (
    Guarded-Takes 0 4 0 0 4 _ (Takes-uint 4) (omega arith) (omega arith) λ n.
      Guarded-fail_if 0 0 _ _ (
        Guarded-need 0 (n + 4) 0 _ (
          Guarded-Takes 4 (n + 4) 0 0 n _ (Takes-take n) (omega arith) (omega arith) λ b.
            Guarded-Takes 0 4 0 0 4 _ (Takes-uint 4) (omega arith) (omega arith) λ m.
              Guarded-fail_if 0 0 _ _ (
                Guarded-need 0 (m + 4) 0 _ (
                  Guarded-Takes 4 (m + 4) 0 0 m _ (Takes-take m) (omega arith) (omega arith) λ p.
                    Guarded-Takes 0 4 0 0 4 _ (Takes-uint 4) (omega arith) (omega arith) λ k.
                      Guarded-fail_if 0 0 _ _ (
                        Guarded-need 0 k 0 _ (
                          Guarded-Takes 0 k 0 0 k _ (Takes-take k) (omega arith) (omega arith)
                            λ q. Guarded-pure 0 _)))))))

decode_timer-Guarded : Guarded 0 0 decode_profile_timer
unfolding decode_profile_timer
decode_timer-Guarded =
    Guarded-need 0 8 0 _
      (Guarded-Takes 0 8 0 0 8 _ (Takes-uint 8) (omega arith) (omega arith) λ p. Guarded-pure 0 _)

decode_trailer-Guarded : (ty : ℕ) → Guarded 0 0 (decode_trailer ty)
unfolding decode_trailer
decode_trailer-Guarded ty = Guarded-if 0 0 _ decode_path-Guarded (
    Guarded-if 0 0 _ decode_symbol-Guarded (
      Guarded-if 0 0 _ decode_usdt-Guarded (
        Guarded-if 0 0 _ decode_timer-Guarded
          (Guarded-if 0 0 _ (Guarded-pure 0 _) (Guarded-fail 0 0 _)))))

walk_kfunc-Guarded : (n : ℕ) → Guarded 0 0 (walk_kfunc_relocs n)
unfolding walk_kfunc_relocs
walk_kfunc-Guarded zero = Guarded-pure 0 tt
walk_kfunc-Guarded (suc n) = Guarded-need 0 5 0 _ (
    Guarded-Takes 1 5 0 0 4 _ (Takes-skip 4) (omega arith) (omega arith) λ u.
      Guarded-Takes 0 1 0 0 1 _ (Takes-uint 1) (omega arith) (omega arith) λ k.
        Guarded-need 0 k 0 _ (
          Guarded-Takes 0 k 0 0 k _ (Takes-skip k) (omega arith) (omega arith)
            λ v. walk_kfunc-Guarded n))

kfunc_section-Guarded : Guarded 0 4 kfunc_relocs_section
unfolding kfunc_relocs_section
kfunc_section-Guarded =
    Guarded-need 0 4 4 _
      (Guarded-Takes 0 4 0 4 4 _ (Takes-uint 4) (omega arith) (omega arith) walk_kfunc-Guarded)

walk_field-Guarded : (n : ℕ) → Guarded 0 0 (walk_field_relocs n)
unfolding walk_field_relocs
walk_field-Guarded zero = Guarded-pure 0 tt
walk_field-Guarded (suc n) = Guarded-need 0 8 0 _ (
    Guarded-Takes 4 8 0 0 4 _ (Takes-skip 4) (omega arith) (omega arith) λ u.
      Guarded-Takes 3 4 0 0 1 _ (Takes-skip 1) (omega arith) (omega arith) λ u.
        Guarded-Takes 2 3 0 0 1 _ (Takes-skip 1) (omega arith) (omega arith) λ u.
          Guarded-Takes 1 2 0 0 1 _ (Takes-uint 1) (omega arith) (omega arith) λ a.
            Guarded-Takes 0 1 0 0 1 _ (Takes-uint 1) (omega arith) (omega arith) λ b.
              Guarded-need 0 (a + b) 0 _ (
                Guarded-Takes 0 (a + b) 0 0 (a + b) _ (Takes-skip (a + b)) (omega arith)
                  (omega arith) λ v. walk_field-Guarded n))

field_section-Guarded : Guarded 0 0 field_relocs_section
unfolding field_relocs_section
field_section-Guarded =
    Guarded-need 0 4 0 _
      (Guarded-Takes 0 4 0 0 4 _ (Takes-uint 4) (omega arith) (omega arith) walk_field-Guarded)

decode_field_section-Guarded : (flags : ℕ) → Guarded 0 0 (decode_field_section flags)
unfolding decode_field_section
decode_field_section-Guarded flags =
    Guarded-if 0 0 _ (Guarded-pure 0 _) (Guarded-spanned 0 0 field_section-Guarded)

-- From any cursor inside the input a program either fails with an error or ends inside the input,
-- 52 bytes at least behind where it began.
pub decode_one_program-Guarded : Guarded 0 52 decode_one_program
unfolding decode_one_program
decode_one_program-Guarded = Guarded-need 0 36 52 _ (
    Guarded-Takes 4 36 20 52 32 _ (Takes-take 32) (omega arith) (omega arith) λ name.
      Guarded-Takes 0 4 16 20 4 _ (Takes-uint 4) (omega arith) (omega arith) λ flags.
        Guarded-bind 0 0 16 _ (decode_trailer-Guarded _) λ trailer. Guarded-need 0 4 16 _ (
          Guarded-Takes 0 4 12 16 4 _ (Takes-uint 4) (omega arith) (omega arith) λ n.
            Guarded-need 0 n 12 _ (
              Guarded-Takes 0 n 12 12 n _ (Takes-take n) (omega arith) (omega arith) λ schema.
                Guarded-need 0 4 12 _ (
                  Guarded-Takes 0 4 8 12 4 _ (Takes-uint 4) (omega arith) (omega arith) λ k.
                    Guarded-need 0 (k * 52) 8 _ (
                      Guarded-Takes 0 (k * 52) 8 8 (k * 52) _ (Takes-take (k * 52)) (omega arith)
                        (omega arith)
                        λ maps. Guarded-need 0 4 8 _ (
                          Guarded-Takes 0 4 4 8 4 _ (Takes-uint 4) (omega arith) (omega arith) λ i.
                            Guarded-need 0 (i * 8) 4 _ (
                              Guarded-Takes 0 (i * 8) 4 4 (i * 8) _ (Takes-take (i * 8))
                                (omega arith) (omega arith)
                                λ insns.
                                  Guarded-bind 0 4 0 _ (Guarded-spanned 0 4 kfunc_section-Guarded)
                                    λ kf.
                                      Guarded-bind 0 0 0 _ (decode_field_section-Guarded flags)
                                        λ fr. Guarded-pure 0 _)))))))
