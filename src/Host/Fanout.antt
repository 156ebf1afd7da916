-- ===== src/Host/Fanout.antt =====
-- host/bifrost/src/cli/capability_fanout.rs: one session envelope for each guest, and the statuses
-- that come back.
pub mod Bits
pub mod Envelopes
pub mod Statuses
mod Runs
use project_bifrost.Base.{
  ℕ, zero, suc, ◌+◌, ◌^◌, List, [], ◌∷◌, ◌++◌, Bytes, Option, none, some, replicate, Bool, true,
  false, ◌||◌, ltb, bytes_eq, if◌then◌else◌,
}
use project_bifrost.Wire.Envelope.{SessionEnvelope, envelope_size, encode}
use Prim.Native.Nat.{bit_and, bit_or}

pub record TargetGuest : Type 0 where
  pub name : Bytes
  pub target_os : ℕ
  pub advertised_capabilities : ℕ

pub record CapabilityHints : Type 0 where
  pub uses_fbt : Bool
  pub uses_tracepoint : Bool
  pub uses_uprobe : Bool
  pub uses_uretprobe : Bool
  pub uses_usdt : Bool
  pub uses_profile_timer : Bool
  pub uses_stack : Bool
  pub uses_ustack : Bool
  pub uses_agg_count : Bool
  pub uses_agg_sum : Bool
  pub uses_agg_min : Bool
  pub uses_agg_max : Bool
  pub uses_agg_avg : Bool
  pub uses_agg_stddev : Bool
  pub uses_agg_quantize : Bool
  pub uses_agg_lquantize : Bool
  pub uses_agg_llquantize : Bool

-- `if flag { bits |= 1 << k; }`
abbrev pub set_if : Bool → ℕ → ℕ → ℕ
set_if flag k bits = if flag then bit_or bits (2 ^ k) else bits

-- Each hint with the number of its SESSION_CAP_* bit, in the order of the code's tests.
abbrev pub hinted : CapabilityHints → List (Bool × ℕ)
hinted h =
    (h.uses_fbt, 0)
    ∷ (h.uses_tracepoint, 1)
    ∷ (h.uses_uprobe, 2)
    ∷ (h.uses_uretprobe, 3)
    ∷ (h.uses_usdt, 4)
    ∷ (h.uses_profile_timer, 5)
    ∷ (h.uses_stack, 6)
    ∷ (h.uses_ustack, 7)
    ∷ (h.uses_agg_count, 16)
    ∷ (h.uses_agg_sum, 17)
    ∷ (h.uses_agg_min, 18)
    ∷ (h.uses_agg_max, 19)
    ∷ (h.uses_agg_avg, 20)
    ∷ (h.uses_agg_stddev, 21)
    ∷ (h.uses_agg_quantize, 22)
    ∷ (h.uses_agg_lquantize, 23)
    ∷ (h.uses_agg_llquantize, 24)
    ∷ []

abbrev pub set_all : List (Bool × ℕ) → ℕ → ℕ
set_all [] bits = bits
set_all ((flag, k) ∷ rest) bits = set_all rest (set_if flag k bits)

unfoldable pub as_capability_bits : CapabilityHints → ℕ
as_capability_bits hints = set_all (hinted hints) 0

pub record SessionPlan : Type 0 where
  pub session_id : ℕ
  pub duration_ms : ℕ
  pub flags : ℕ
  pub dof_offset : ℕ
  pub dof_length : ℕ
  pub dof_sha256 : Bytes
  pub hints : CapabilityHints
  pub required_capabilities : ℕ

pub record PlannedEnvelope : Type 0 where
  pub guest_name : Bytes
  pub target_os : ℕ
  pub envelope_bytes : Bytes

abbrev pub envelope_for : SessionPlan → ℕ → TargetGuest → SessionEnvelope
envelope_for plan hint_bits guest = record {
  wire_major = 1;
  wire_minor = 0;
  target_os = guest.target_os;
  flags = plan.flags;
  session_id = plan.session_id;
  duration_ms = plan.duration_ms;
  dof_offset = plan.dof_offset;
  dof_length = plan.dof_length;
  dof_sha256 = plan.dof_sha256;
  capability_request = bit_and hint_bits guest.advertised_capabilities;
  capability_required = plan.required_capabilities;
}

-- One turn of the loop; `none` is the panic of `expect`.
unfoldable pub plan_envelope : SessionPlan → ℕ → TargetGuest → Option PlannedEnvelope
plan_envelope plan hint_bits guest =
    elim (encode (envelope_for plan hint_bits guest) (replicate envelope_size 0)) [
      | none ↦ none
      | some written ↦ some (record {
        guest_name = guest.name;
        target_os = guest.target_os;
        envelope_bytes = written.1;
      })
    ]

-- `out.push` before the loop goes on; a panic ends both.
abbrev pub push_each :
    Option PlannedEnvelope → Option (List PlannedEnvelope) → Option (List PlannedEnvelope)
push_each none es = none
push_each (some e) none = none
push_each (some e) (some es) = some (e ∷ es)

unfoldable pub plan_each : SessionPlan → ℕ → List TargetGuest → Option (List PlannedEnvelope)
plan_each plan hint_bits [] = some []
plan_each plan hint_bits (guest ∷ guests) =
    push_each (plan_envelope plan hint_bits guest) (plan_each plan hint_bits guests)

unfoldable pub fanout : SessionPlan → List TargetGuest → Option (List PlannedEnvelope)
fanout plan guests = plan_each plan (as_capability_bits plan.hints) guests

pub data EcbVerdict : Type 0 where
  accepted : EcbVerdict
  rejected : (reason : ℕ) → EcbVerdict
  zero_match : EcbVerdict

-- The map from a guest's name to its statuses, by entries.
abbrev pub ByGuest : Type 0
ByGuest = List (Bytes × List (ℕ × EcbVerdict))

unfoldable pub record_status : Bytes → ℕ → EcbVerdict → ByGuest → ByGuest
record_status guest_name ecb_index verdict [] = (guest_name, (ecb_index, verdict) ∷ []) ∷ []
record_status guest_name ecb_index verdict ((name, statuses) ∷ rest) =
    let later = record_status guest_name ecb_index verdict rest in
    if bytes_eq name guest_name
    then (name, statuses ++ (ecb_index, verdict) ∷ []) ∷ rest
    else (name, statuses) ∷ later

abbrev pub is_accepted : EcbVerdict → Bool
is_accepted accepted = true
is_accepted (rejected reason) = false
is_accepted zero_match = false

unfoldable pub accepted_in : List (ℕ × EcbVerdict) → ℕ
accepted_in [] = 0
accepted_in ((i, v) ∷ statuses) = (if is_accepted v then 1 else 0) + accepted_in statuses

unfoldable pub accepted_total : ByGuest → ℕ
accepted_total [] = 0
accepted_total ((name, statuses) ∷ rest) = accepted_in statuses + accepted_total rest

unfoldable pub any_in : List (ℕ × EcbVerdict) → Bool
any_in [] = false
any_in ((i, v) ∷ statuses) = is_accepted v || any_in statuses

unfoldable pub any_accepted : ByGuest → Bool
any_accepted [] = false
any_accepted ((name, statuses) ∷ rest) = any_in statuses || any_accepted rest
