-- ===== src/Host/Fanout/Envelopes.antt =====
-- What the guests decode.
use project_bifrost.Base.{
  ℕ, ◌^◌, ◌∙◌, ap, Bool, true, false, ◌&&◌, ◌==◌, if◌then◌else◌, ◌≡◌, refl, arith, sym, subst, List,
  [], ◌∷◌, Bytes, Option, none, some, replicate, length, drop, IsU16, IsU64, All,
}
use project_bifrost.Wire.Envelope.{SessionEnvelope, ok, encode, decode}
use project_bifrost.Wire.Envelope.RoundTrip.{IsEnvelope, decode-encode_envelope}
use project_bifrost.Host.Fanout.{
  TargetGuest, CapabilityHints, set_all, hinted, SessionPlan, PlannedEnvelope, as_capability_bits,
  envelope_for, plan_envelope, plan_each, push_each, fanout,
}
use project_bifrost.Host.Fanout.Bits.{
  bit_and-le, digit, digit-le, digit-zero, digit-power, digit-bit_and, digit-bit_or,
}
use Prim.Native.Nat.{max, bit_or}

-- The ranges of the Rust types.
pub record IsPlan (plan : SessionPlan) : Type 0 where
  pub flag : IsU16 plan.flags
  pub id : IsU64 plan.session_id
  pub duration : IsU64 plan.duration_ms
  pub offset : IsU64 plan.dof_offset
  pub len : IsU64 plan.dof_length
  pub sha : length plan.dof_sha256 ≡ 32
  pub required : IsU64 plan.required_capabilities

abbrev pub IsGuest : TargetGuest → Type 0
IsGuest g = IsU16 g.target_os × IsU64 g.advertised_capabilities

-- Whether a plan's hints ask for the capability with number `k`, as host/bifrost-wire/src/session_envelope.rs
-- numbers the capabilities.
unfoldable pub asks : CapabilityHints → ℕ → Bool
asks hints k =
    if k == 0 && hints.uses_fbt
    then true
    else if k == 1 && hints.uses_tracepoint
    then true
    else if k == 2 && hints.uses_uprobe
    then true
    else if k == 3 && hints.uses_uretprobe
    then true
    else if k == 4 && hints.uses_usdt
    then true
    else if k == 5 && hints.uses_profile_timer
    then true
    else if k == 6 && hints.uses_stack
    then true
    else if k == 7 && hints.uses_ustack
    then true
    else if k == 16 && hints.uses_agg_count
    then true
    else if k == 17 && hints.uses_agg_sum
    then true
    else if k == 18 && hints.uses_agg_min
    then true
    else if k == 19 && hints.uses_agg_max
    then true
    else if k == 20 && hints.uses_agg_avg
    then true
    else if k == 21 && hints.uses_agg_stddev
    then true
    else if k == 22 && hints.uses_agg_quantize
    then true
    else if k == 23 && hints.uses_agg_lquantize
    then true
    else if k == 24 && hints.uses_agg_llquantize
    then true
    else false

-- What one guest decodes: the plan's fields and the guest's system, and of the capabilities just
-- those that the hints ask for and the guest advertises.
pub record IsEnvelopeFor (plan : SessionPlan) (g : TargetGuest) (env : SessionEnvelope)
    : Type 0 where
  pub major : env.wire_major ≡ 1
  pub minor : env.wire_minor ≡ 0
  pub os : env.target_os ≡ g.target_os
  pub flag : env.flags ≡ plan.flags
  pub id : env.session_id ≡ plan.session_id
  pub duration : env.duration_ms ≡ plan.duration_ms
  pub offset : env.dof_offset ≡ plan.dof_offset
  pub len : env.dof_length ≡ plan.dof_length
  pub sha : env.dof_sha256 ≡ plan.dof_sha256
  pub request :
      (k : ℕ)
      → digit k env.capability_request
        ≡ (if asks plan.hints k then digit k g.advertised_capabilities else 0)
  pub required : env.capability_required ≡ plan.required_capabilities

abbrev pub IsFor : SessionPlan → TargetGuest → PlannedEnvelope → Type 0
IsFor plan g e =
    (e.guest_name ≡ g.name)
    × (e.target_os ≡ g.target_os)
    × (length e.envelope_bytes ≡ 96)
    × (env : SessionEnvelope) × (decode e.envelope_bytes ≡ ok env)
    × IsEnvelopeFor plan g env

-- The bits that the code's tests set, one after another.
abbrev asked_in : ℕ → List (Bool × ℕ) → Bool
asked_in k [] = false
asked_in k ((flag, j) ∷ rest) = if k == j && flag then true else asked_in k rest

digit-set_all :
    (k : ℕ) (tests : List (Bool × ℕ)) (bits : ℕ)
    → digit k (set_all tests bits) ≡ max (digit k bits) (if asked_in k tests then 1 else 0)
digit-set_all k [] bits = omega arith
digit-set_all k ((true, j) ∷ rest) bits = ground (
  arith,
  digit-set_all k rest (bit_or bits (2 ^ j)),
  digit-bit_or k bits (2 ^ j),
  digit-power k j,
  digit-le k bits,
)
digit-set_all k ((false, j) ∷ rest) bits = ground (arith, digit-set_all k rest bits)

digit-as_capability_bits :
    (hints : CapabilityHints) (k : ℕ)
    → digit k (as_capability_bits hints) ≡ (if asks hints k then 1 else 0)
unfolding as_capability_bits asks
digit-as_capability_bits hints k =
    digit-set_all k (hinted hints) 0
    ∙ ap (λ d. max d (if asked_in k (hinted hints) then 1 else 0)) (digit-zero k)
    ∙ max_zero (if asked_in k (hinted hints) then 1 else 0)
  where
    max_zero : (n : ℕ) → max 0 n ≡ n
    max_zero n = omega arith

envelope_for-IsEnvelopeFor :
    (plan : SessionPlan) (g : TargetGuest)
    → IsEnvelopeFor plan g (envelope_for plan (as_capability_bits plan.hints) g)
envelope_for-IsEnvelopeFor plan g = record {
  major = refl;
  minor = refl;
  os = refl;
  flag = refl;
  id = refl;
  duration = refl;
  offset = refl;
  len = refl;
  sha = refl;
  request = λ k. ground (
    arith,
    digit-bit_and k (as_capability_bits plan.hints) g.advertised_capabilities,
    digit-as_capability_bits plan.hints k,
    digit-le k g.advertised_capabilities,
  );
  required = refl;
}

unfoldable pub Addresses : SessionPlan → List TargetGuest → Option (List PlannedEnvelope) → Type 0
Addresses plan gs none = ⊥
Addresses plan [] (some []) = Unit {0}
Addresses plan [] (some (e ∷ es)) = ⊥
Addresses plan (g ∷ gs) (some []) = ⊥
Addresses plan (g ∷ gs) (some (e ∷ es)) = IsFor plan g e × Addresses plan gs (some es)

envelope_for-IsEnvelope :
    (plan : SessionPlan) (g : TargetGuest) (bits : ℕ)
    → IsPlan plan
    → IsGuest g
    → IsEnvelope (envelope_for plan bits g)
envelope_for-IsEnvelope plan g bits h (os, caps) = record {
  minor = omega arith;
  os = os;
  flag = h.flag;
  id = h.id;
  duration = h.duration;
  offset = h.offset;
  len = h.len;
  sha = h.sha;
  request = omega (arith, bit_and-le bits g.advertised_capabilities);
  required = h.required;
}

abbrev zeros : Bytes
zeros = replicate 96 0

-- The envelope of one guest, once it is known what `encode` writes.
planned :
    (plan : SessionPlan) (g : TargetGuest) (bits : ℕ) (out : Bytes)
    → encode (envelope_for plan bits g) zeros ≡ some (96, out)
    → plan_envelope plan bits g
      ≡ some (record { guest_name = g.name; target_os = g.target_os; envelope_bytes = out })
unfolding plan_envelope
planned plan g bits out e = rw (e, plan_envelope) refl

abbrev IsPlanned : SessionPlan → TargetGuest → Option PlannedEnvelope → Type 0
IsPlanned plan g none = ⊥
IsPlanned plan g (some e) = IsFor plan g e

plan_envelope-IsPlanned :
    (plan : SessionPlan) (g : TargetGuest)
    → IsPlan plan
    → IsGuest g
    → IsPlanned plan g (plan_envelope plan (as_capability_bits plan.hints) g)
plan_envelope-IsPlanned plan g h hg = from_written (
    decode-encode_envelope (envelope_for plan bits g) zeros
      (envelope_for-IsEnvelope plan g bits h hg) refl (omega arith))
  where
    bits : ℕ
    bits = as_capability_bits plan.hints

    from_written :
        (out : Bytes) × (encode (envelope_for plan bits g) zeros ≡ some (96, out))
          × (length out ≡ length zeros)
          × (drop 96 out ≡ drop 96 zeros)
          × (decode out ≡ ok (envelope_for plan bits g))
        → IsPlanned plan g (plan_envelope plan bits g)
    from_written (out, e, size, rest, d) =
        subst (λ p. IsPlanned plan g p) (sym (planned plan g bits out e))
          (refl, refl, size, envelope_for plan bits g, d, envelope_for-IsEnvelopeFor plan g)

push_each-Addresses :
    (plan : SessionPlan) (g : TargetGuest) (gs : List TargetGuest) (e : Option PlannedEnvelope)
    (es : Option (List PlannedEnvelope))
    → IsPlanned plan g e
    → Addresses plan gs es
    → Addresses plan (g ∷ gs) (push_each e es)
unfolding Addresses
push_each-Addresses plan g gs none es h hs = h
push_each-Addresses plan g gs (some e) none h hs = none_of gs hs
  where
    none_of : (gs : List TargetGuest) → Addresses plan gs none → ⊥
    none_of [] a = a
    none_of (x ∷ xs) a = a
push_each-Addresses plan g gs (some e) (some es) h hs = (h, hs)

-- For a plan and guests in the ranges of their types, `fanout` does not panic: there is one
-- envelope of 96 bytes for each guest, in their order, with the guest's name and system, and it
-- decodes to the plan's fields, with the capabilities that the plan's hints ask for and the guest
-- advertises, and with the required ones as they are.
pub fanout-Addresses :
    (plan : SessionPlan) (guests : List TargetGuest)
    → IsPlan plan
    → All IsGuest guests
    → Addresses plan guests (fanout plan guests)
unfolding fanout plan_each Addresses
fanout-Addresses plan [] h hg = tt
fanout-Addresses plan (g ∷ gs) h (hg, hgs) =
    push_each-Addresses plan g gs _ _ (plan_envelope-IsPlanned plan g h hg)
      (fanout-Addresses plan gs h hgs)
