-- ===== src/Host/Fanout/Runs.antt =====
-- A plan for two guests, and the theorems at concrete inputs.
use project_bifrost.Base.{
  ◌+◌, ◌≡◌, refl, arith, List, [], ◌∷◌, true, false, replicate, ltb, bytes_eq,
}
use project_bifrost.Host.Fanout.{
  TargetGuest, CapabilityHints, SessionPlan, as_capability_bits, fanout, record_status, accepted,
  rejected, zero_match, accepted_total, accepted_in, any_accepted,
}
use project_bifrost.Host.Fanout.Envelopes.{IsPlan, Addresses, fanout-Addresses}
use project_bifrost.Host.Fanout.Statuses.{Status, record_all, accepting, record_all-accepted_total}

abbrev hints : CapabilityHints
hints = record {
  uses_fbt = true;
  uses_tracepoint = false;
  uses_uprobe = false;
  uses_uretprobe = false;
  uses_usdt = false;
  uses_profile_timer = false;
  uses_stack = true;
  uses_ustack = false;
  uses_agg_count = true;
  uses_agg_sum = false;
  uses_agg_min = false;
  uses_agg_max = false;
  uses_agg_avg = false;
  uses_agg_stddev = false;
  uses_agg_quantize = false;
  uses_agg_lquantize = false;
  uses_agg_llquantize = false;
}

hints_bits : as_capability_bits hints ≡ 65601
unfolding as_capability_bits
hints_bits = refl

abbrev plan : SessionPlan
plan = record {
  session_id = 7;
  duration_ms = 1000;
  flags = 0;
  dof_offset = 4096;
  dof_length = 512;
  dof_sha256 = replicate 32 9;
  hints = hints;
  required_capabilities = 1;
}

abbrev guests : List TargetGuest
guests =
    record { name = 97 ∷ []; target_os = 1; advertised_capabilities = 65537 }
    ∷ record { name = 98 ∷ []; target_os = 2; advertised_capabilities = 64 }
    ∷ []

plan-IsPlan : IsPlan plan
plan-IsPlan = record {
  flag = omega arith;
  id = omega arith;
  duration = omega arith;
  offset = omega arith;
  len = omega arith;
  sha = refl;
  required = omega arith;
}

fanout-Addresses_example : Addresses plan guests (fanout plan guests)
fanout-Addresses_example =
    fanout-Addresses plan guests plan-IsPlan
      ((omega arith, omega arith), ((omega arith, omega arith), tt))

abbrev reports : List Status
reports =
    record { guest_name = 97 ∷ []; ecb_index = 0; verdict = accepted }
    ∷ record { guest_name = 98 ∷ []; ecb_index = 0; verdict = rejected 2 }
    ∷ record { guest_name = 97 ∷ []; ecb_index = 1; verdict = zero_match }
    ∷ record { guest_name = 98 ∷ []; ecb_index = 1; verdict = accepted }
    ∷ []

record_all-accepted_total_example :
    (accepted_total (record_all reports []) ≡ accepted_total [] + accepting reports)
    × (any_accepted (record_all reports []) ≡ ltb 0 (accepted_total [] + accepting reports))
record_all-accepted_total_example = record_all-accepted_total reports []

two_accepted : accepted_total (record_all reports []) ≡ 2
unfolding accepted_total accepted_in record_status bytes_eq
two_accepted = refl
