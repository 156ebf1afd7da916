-- ===== src/Wire/Program/Stable.antt =====
-- What stands behind a program does not change how it is decoded.
use project_bifrost.Base.{ℕ, zero, suc, ◌+◌}
use project_bifrost.Wire.Decoder.Stable.{
  Stable, Stable-pure, Stable-fail, Stable-if, Stable-fail_if, Stable-bind, Stable-need,
  Stable-take, Stable-uint, Stable-skip, Stable-spanned,
}
use project_bifrost.Wire.Program.Decode.{
  decode_path, decode_symbol, decode_usdt, decode_profile_timer, decode_trailer, walk_kfunc_relocs,
  kfunc_relocs_section, walk_field_relocs, field_relocs_section, decode_field_section,
  decode_one_program,
}

ruleset stable_rules = (
  Stable-pure, Stable-fail, Stable-if, Stable-fail_if, Stable-bind, Stable-need, Stable-take,
  Stable-uint, Stable-skip, Stable-spanned,
)

decode_path-Stable : Stable decode_path
unfolding decode_path
decode_path-Stable = search stable_rules depth 20

decode_symbol-Stable : Stable decode_symbol
unfolding decode_symbol
decode_symbol-Stable = search stable_rules depth 20

decode_usdt-Stable : Stable decode_usdt
unfolding decode_usdt
decode_usdt-Stable = search stable_rules depth 30

decode_timer-Stable : Stable decode_profile_timer
unfolding decode_profile_timer
decode_timer-Stable = search stable_rules depth 20

decode_trailer-Stable : (ty : ℕ) → Stable (decode_trailer ty)
unfolding decode_trailer
decode_trailer-Stable ty =
    search
      (
        Stable-if, Stable-pure, Stable-fail, decode_path-Stable, decode_symbol-Stable,
        decode_usdt-Stable, decode_timer-Stable,
      )
      depth 10

walk_kfunc-Stable : (n : ℕ) → Stable (walk_kfunc_relocs n)
unfolding walk_kfunc_relocs
walk_kfunc-Stable zero = Stable-pure tt
walk_kfunc-Stable (suc n) = Stable-bind _ (Stable-need _ _) λ u. Stable-bind _ (Stable-skip 4) λ u.
    Stable-bind _ (Stable-uint 1) λ k.
      Stable-bind _ (Stable-need k _) λ u. Stable-bind _ (Stable-skip k) λ u. walk_kfunc-Stable n

kfunc_section-Stable : Stable kfunc_relocs_section
unfolding kfunc_relocs_section
kfunc_section-Stable = search (stable_rules, walk_kfunc-Stable) depth 10

walk_field-Stable : (n : ℕ) → Stable (walk_field_relocs n)
unfolding walk_field_relocs
walk_field-Stable zero = Stable-pure tt
walk_field-Stable (suc n) = Stable-bind _ (Stable-need _ _) λ u. Stable-bind _ (Stable-skip 4) λ u.
    Stable-bind _ (Stable-skip 1) λ u. Stable-bind _ (Stable-skip 1) λ u.
      Stable-bind _ (Stable-uint 1) λ a. Stable-bind _ (Stable-uint 1) λ b.
        Stable-bind _ (Stable-need (a + b) _)
          λ u. Stable-bind _ (Stable-skip (a + b)) λ u. walk_field-Stable n

field_section-Stable : Stable field_relocs_section
unfolding field_relocs_section
field_section-Stable = search (stable_rules, walk_field-Stable) depth 10

decode_field_section-Stable : (flags : ℕ) → Stable (decode_field_section flags)
unfolding decode_field_section
decode_field_section-Stable flags =
    Stable-if _ (Stable-pure _) (Stable-spanned field_section-Stable)

pub decode_one_program-Stable : Stable decode_one_program
unfolding decode_one_program
decode_one_program-Stable =
    search
      (
        Stable-pure, Stable-bind, Stable-need, Stable-take, Stable-uint, Stable-spanned,
        decode_trailer-Stable, kfunc_section-Stable, decode_field_section-Stable,
      )
      depth 40
