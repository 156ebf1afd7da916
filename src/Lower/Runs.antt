-- ===== src/Lower/Runs.antt =====
-- A session over a small DOF blob, and the theorems at concrete inputs.
use project_bifrost.Base.{
  ◌<◌, ◌^◌, ℕ, ◌+◌, ◌≡◌, ◌≤◌, ◌%◌, ◌⊎◌, some, refl, arith, Bool, true, false, [], ◌∷◌, ◌++◌, Bytes,
  length, le_bytes, from_le, replicate, take, drop, bytes_eq,
}
use project_bifrost.Lower.Error.{ok, err, not_implemented}
use project_bifrost.Lower.Dof.{
  SectionHeader, DofView, parse_blob, table_view, read_le, section_at, section_bytes,
  parse_section_header, sect_kind_from_u32, is_ecb_desc, is_probe_desc,
}
use project_bifrost.Lower.Dof.Bounds.{parse_blob-section_at, section_bytes-inside}
use project_bifrost.Lower.Action.{
  ActionDescriptor, is_destructive, is_agg_sentinel, parse_action, action_kind_from_u32,
}
use project_bifrost.Lower.Adapter.{KernelAdapter, accepted}
use project_bifrost.Lower.Ecb.{
  EcbDescriptor, iter_ecbs, ecbs_from, ecb_rows, parse_ecb, chain, action_row, walk_actions,
  walk_rows,
}
use project_bifrost.Lower.Resolve.{resolve_probe_target, read_cstr, until_nul}
use project_bifrost.Lower.Session.{drive, drive_one, on_action, declare_sentinel}
use project_bifrost.Lower.Session.Statuses.{IsReported, drive_reports}
use project_bifrost.Lower.Session.Policy.{with_harm, drive_ignores_harm}
use project_bifrost.Lower.Session.Accepted.{drive_one_accepts_plain}
use project_bifrost.Lower.Session.Ledger.{with_ledger}
use project_bifrost.Lower.Session.Attached.{IsLedger, drive_leaves_accepted}

abbrev section_row : ℕ → ℕ → ℕ → ℕ → Bytes
section_row kind entsize offset size =
    le_bytes 4 kind
    ++ (le_bytes 8 0 ++ (le_bytes 4 entsize ++ (le_bytes 8 offset ++ le_bytes 8 size)))

-- A string table, a probe with empty names, one `trace` action without an expression, and an ECB.
abbrev table : Bytes
table =
    section_row 8 0 192 1
    ++ (section_row 4 20 193 20 ++ (section_row 5 32 213 32 ++ section_row 3 24 245 24))

abbrev action_bytes : Bytes
action_bytes = le_bytes 8 0 ++ (le_bytes 4 1 ++ replicate 20 0)

abbrev ecb_bytes : Bytes
ecb_bytes =
    le_bytes 4 1
    ++ (le_bytes 4 0 ++ (le_bytes 4 2 ++ (le_bytes 4 0 ++ (le_bytes 4 0 ++ le_bytes 4 1))))

abbrev header : Bytes
header =
    (0x7f ∷ 0x44 ∷ 0x4f ∷ 0x46 ∷ [])
    ++ (replicate 12 0
        ++ (le_bytes 4 0
            ++ (le_bytes 4 64
                ++ (le_bytes 4 32 ++ (le_bytes 4 4 ++ (le_bytes 8 64 ++ replicate 24 0))))))

abbrev synth : Bytes
synth = header ++ (table ++ ((0 ∷ []) ++ (replicate 20 0 ++ (action_bytes ++ ecb_bytes))))

abbrev synth_view : DofView
synth_view = record { blob = synth; sections = table; section_count = 4 }

synth_parses : parse_blob synth ≡ ok synth_view
unfolding parse_blob table_view read_le le_bytes from_le bytes_eq
synth_parses = refl

parse_blob-section_at_example : (hdr : SectionHeader) × (section_at synth_view 3 ≡ some hdr)
parse_blob-section_at_example = parse_blob-section_at synth synth_view 3 synth_parses (omega arith)

synth_action_section : section_bytes synth_view 2 ≡ ok action_bytes
unfolding section_bytes section_at parse_section_header read_le le_bytes from_le
synth_action_section = refl

section_bytes-inside_example :
    (hdr : SectionHeader) × (section_at synth_view 2 ≡ some hdr)
    × (hdr.offset + hdr.size ≤ length synth)
    × (action_bytes ≡ take hdr.size (drop hdr.offset synth))
    × (length action_bytes ≡ hdr.size)
    × ((hdr.entsize ≡ 0) ⊎ (hdr.size % hdr.entsize ≡ 0))
section_bytes-inside_example = section_bytes-inside synth_view 2 action_bytes synth_action_section

abbrev trace_ecb : EcbDescriptor
trace_ecb = record {
  probe_section = 1;
  probe_index = 0;
  pred_section = 0;
  action_section = 2;
  action_first = 0;
  action_count = 1;
}

-- `StubAdapter`: its state is the number of probes attached.
abbrev stub : KernelAdapter ℕ
stub = record {
  provider_supports = λ provider n. true;
  attach_probe = λ target n. (ok (n + 1), n + 1);
  bind_predicate = λ id difo n. (err not_implemented, n);
  record_action = λ id action difo n. (ok tt, n);
  declare_aggregation = λ var kind buckets n. (ok tt, n);
  detach_probe = λ id n. n;
  on_session_event = λ event n. (ok tt, n);
}

abbrev any_text : Bytes → Bool
any_text text = true

synth_ecbs : iter_ecbs synth_view ≡ ok trace_ecb ∷ []
unfolding iter_ecbs ecbs_from ecb_rows parse_ecb read_le le_bytes from_le section_at section_bytes
    parse_section_header sect_kind_from_u32 is_ecb_desc
synth_ecbs = refl

synth_accepted : drive_one stub any_text synth_view trace_ecb 0 ≡ (ok (accepted 1), 1)
unfolding drive_one resolve_probe_target read_cstr until_nul read_le le_bytes from_le section_at
    section_bytes parse_section_header sect_kind_from_u32 is_probe_desc walk_actions walk_rows chain
    action_row parse_action action_kind_from_u32 on_action declare_sentinel is_destructive
    is_agg_sentinel
synth_accepted = refl

synth_chain : chain synth_view trace_ecb ≡ ok (action_bytes, 32)
unfolding chain read_le le_bytes from_le section_at section_bytes parse_section_header
    sect_kind_from_u32
synth_chain = refl

drive_one_accepts_plain_example :
    (desc : ActionDescriptor) × (action_row trace_ecb action_bytes 32 0 ≡ ok desc)
    × (is_destructive desc.kind ≡ false)
    × (is_agg_sentinel desc.kind ≡ false)
drive_one_accepts_plain_example =
    drive_one_accepts_plain stub any_text synth_view trace_ecb action_bytes 32 1 0 0 1
      synth_accepted synth_chain (omega arith)

few : length (iter_ecbs synth_view) < 2 ^ 32
few = rw synth_ecbs (omega arith)

drive_reports_example :
    IsReported 0 0
      (length (iter_ecbs synth_view))
      (drive stub any_text synth_view 0).0
      (drive stub any_text synth_view 0).1.1
drive_reports_example = drive_reports stub any_text synth_view 0 few

drive_ignores_harm_example :
    drive
      (with_harm stub (λ id action difo n. (err not_implemented, n + 100)))
      any_text
      synth_view
      0
    ≡ drive stub any_text synth_view 0
drive_ignores_harm_example =
    drive_ignores_harm stub (λ id action difo n. (err not_implemented, n + 100)) any_text synth_view
      0

drive_leaves_accepted_example :
    IsLedger
      (9 ∷ [])
      (drive (with_ledger stub) any_text synth_view (0, 9 ∷ [])).0
      (drive (with_ledger stub) any_text synth_view (0, 9 ∷ [])).1.1
      (drive (with_ledger stub) any_text synth_view (0, 9 ∷ [])).1.0.1
drive_leaves_accepted_example = drive_leaves_accepted stub any_text synth_view 0 (9 ∷ [])
