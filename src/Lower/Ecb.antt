-- ===== src/Lower/Ecb.antt =====
-- ecb.rs: the enabling control blocks of a DOF blob and their action chains.
use project_bifrost.Base.{
  ℕ, zero, suc, ◌+◌, ◌*◌, not, Option, none, some, List, [], ◌∷◌, ◌++◌, Bytes, length, take, drop,
  ltb, ◌==◌, if◌then◌else◌,
}
use project_bifrost.Lower.Error.{
  Result, ok, err, LowerError, truncated_dif, section_index_out_of_range, section_entsize_mismatch,
  section_out_of_bounds, capacity_exceeded, ◌>>=◌,
}
use project_bifrost.Lower.Dof.{
  DofView, SectionHeader, read_le, section_at, section_bytes, is_ecb_desc, usize_max,
}
use project_bifrost.Lower.Action.{ActionDescriptor, parse_action}

pub record EcbDescriptor : Type 0 where
  pub probe_section : ℕ
  pub probe_index : ℕ
  pub pred_section : ℕ
  pub action_section : ℕ
  pub action_first : ℕ
  pub action_count : ℕ

unfoldable pub parse_ecb : Bytes → Result LowerError EcbDescriptor
parse_ecb raw =
    if ltb (length raw) 24
    then err truncated_dif
    else ok (record {
      probe_section = read_le 4 raw 0;
      probe_index = 0;
      pred_section = read_le 4 raw 4;
      action_section = read_le 4 raw 8;
      action_first = read_le 4 raw 16;
      action_count = read_le 4 raw 20;
    })

-- The rows of an open section from `cursor` on. Rows are one byte long at least, so the section's
-- length is fuel enough.
unfoldable pub ecb_rows : ℕ → ℕ → Bytes → ℕ → List (Result LowerError EcbDescriptor)
ecb_rows zero entsize payload cursor = []
ecb_rows (suc fuel) entsize payload cursor =
    let rest = ecb_rows fuel entsize payload (cursor + entsize) in
    if ltb (length payload) (cursor + entsize)
    then []
    else parse_ecb (take entsize (drop cursor payload)) ∷ rest

abbrev pub open_section : ℕ → Result LowerError Bytes → List (Result LowerError EcbDescriptor)
open_section entsize (err e) = err e ∷ []
open_section entsize (ok payload) =
    if entsize == 0 then [] else ecb_rows (length payload) entsize payload 0

abbrev pub ecbs_of :
    Option SectionHeader → Result LowerError Bytes → List (Result LowerError EcbDescriptor)
ecbs_of none payload = []
ecbs_of (some hdr) payload =
    if not (is_ecb_desc hdr.kind) then [] else open_section hdr.entsize payload

-- The sections `idx`, …, `idx + left - 1`.
unfoldable pub ecbs_from : ℕ → DofView → ℕ → List (Result LowerError EcbDescriptor)
ecbs_from zero view idx = []
ecbs_from (suc left) view idx =
    ecbs_of (section_at view idx) (section_bytes view idx) ++ ecbs_from left view (suc idx)

-- Everything that `iter_ecbs(view)` yields, in order.
unfoldable pub iter_ecbs : DofView → List (Result LowerError EcbDescriptor)
iter_ecbs view = ecbs_from view.section_count view 0

-- Row `first + i` of the action section.
unfoldable pub action_row : EcbDescriptor → Bytes → ℕ → ℕ → Result LowerError ActionDescriptor
action_row ecb section entsize i =
    let start = (ecb.action_first + i) * entsize in
    if ltb usize_max start
    then err (capacity_exceeded 0xffff_ffff)
    else if ltb (length section) (start + entsize)
    then err (section_out_of_bounds ecb.action_section start entsize (length section))
    else parse_action (take entsize (drop start section))

-- The section and the row size of an ECB's chain.
abbrev pub chain_header :
    DofView → EcbDescriptor → Bytes → Option SectionHeader → Result LowerError (Bytes × ℕ)
chain_header view ecb section none =
    err (section_index_out_of_range ecb.action_section view.section_count)
chain_header view ecb section (some hdr) =
    if hdr.entsize == 0
    then err (section_entsize_mismatch ecb.action_section 0 hdr.size)
    else ok (section, hdr.entsize)

unfoldable pub chain : DofView → EcbDescriptor → Result LowerError (Bytes × ℕ)
chain view ecb = section_bytes view ecb.action_section >>= λ section.
    chain_header view ecb section (section_at view ecb.action_section)

module _ {S : Type 0}
    (on_action : ℕ → ActionDescriptor → S → Result LowerError (Unit {0}) × S) where
  abbrev pub call : ℕ → Result LowerError ActionDescriptor → S → Result LowerError (Unit {0}) × S
  call i (ok desc) s = on_action i desc s
  call i (err e) s = (err e, s)

  abbrev pub proceed :
      Result LowerError (Unit {0}) × S
      → (S → Result LowerError (Unit {0}) × S)
      → Result LowerError (Unit {0}) × S
  proceed (ok u, s) rest = rest s
  proceed (err e, s) rest = (err e, s)

  -- `for i in i..i + left`
  unfoldable pub walk_rows :
      ℕ → (ℕ → Result LowerError ActionDescriptor) → ℕ → S → Result LowerError (Unit {0}) × S
  walk_rows zero row i s = (ok tt, s)
  walk_rows (suc left) row i s = proceed (call i (row i) s) (walk_rows left row (suc i))

  abbrev pub walk_chain :
      EcbDescriptor → Result LowerError (Bytes × ℕ) → S → Result LowerError (Unit {0}) × S
  walk_chain ecb (err e) s = (err e, s)
  walk_chain ecb (ok (section, entsize)) s =
      walk_rows ecb.action_count (action_row ecb section entsize) 0 s

  unfoldable pub walk_actions : DofView → EcbDescriptor → S → Result LowerError (Unit {0}) × S
  walk_actions view ecb s =
      if ecb.action_count == 0 then (ok tt, s) else walk_chain ecb (chain view ecb) s
