-- ===== src/Lower/Session/Sentinel.antt =====
-- Aggregation sentinels have no operator that `from_u32` knows.
use project_bifrost.Base.{
  ℕ, ◌+◌, ◌*◌, ◌/◌, ◌≤◌, ◌≡◌, ◌≢◌, refl, arith, true, none, some, Bytes, ltb, Bool-cases, inl, inr,
  length, subst,
}
use project_bifrost.Lower.Error.{
  Result, ok, err, LowerError, RejectReason, unknown_agg_kind, ◌>>=◌, err-ok,
}
use project_bifrost.Lower.Dof.{usize_max}
use project_bifrost.Lower.Agg.{agg_kind_from_u32}
use project_bifrost.Lower.Action.{
  ActionKind, ActionDescriptor, action_kind_from_u32, is_agg_sentinel, parse_action, describe,
}
use project_bifrost.Lower.Adapter.{EcbStatus, accepted, rejected, no_match}
use project_bifrost.Lower.Ecb.{EcbDescriptor, action_row}

-- The number of a sentinel's kind is 0x700 and up to 0x7ff, so its upper byte is 7.
sentinel_number :
    (v : ℕ) (k : ActionKind)
    → action_kind_from_u32 v ≡ ok k
    → is_agg_sentinel k ≡ true
    → (0x0700 ≤ v) × (v ≤ 0x07ff)
unfolding action_kind_from_u32 is_agg_sentinel
sentinel_number v k e s = ground arith

no_agg_kind : agg_kind_from_u32 7 ≡ err (unknown_agg_kind 7)
unfolding agg_kind_from_u32
no_agg_kind = refl

abbrev pub IsRejectedAgg : ActionDescriptor → Type 0
IsRejectedAgg desc = agg_kind_from_u32 (desc.kind_raw / 256) ≡ err (unknown_agg_kind 7)

pub rejected-accepted :
    {r : RejectReason} {k : ℕ}
    → (let s : Result LowerError EcbStatus = ok (rejected r) in s) ≢ ok (accepted k)
rejected-accepted h = cc

pub no_match-accepted :
    {k : ℕ} → (let s : Result LowerError EcbStatus = ok no_match in s) ≢ ok (accepted k)
no_match-accepted h = cc

pub some-none : {B : Type 0} {b : B} → some b ≢ none
some-none h = cc

described :
    (raw : Bytes) (n : ℕ) (r : Result LowerError ActionKind) (desc : ActionDescriptor)
    → action_kind_from_u32 n ≡ r
    → (r >>= λ kind. ok (describe raw n kind)) ≡ ok desc
    → (action_kind_from_u32 desc.kind_raw ≡ ok desc.kind)
described raw n (err e) desc h e' = cc
described raw n (ok k) desc h e' =
    let same : describe raw n k ≡ desc = cc in
    subst (λ (d : ActionDescriptor). action_kind_from_u32 d.kind_raw ≡ ok d.kind) same h

parse_action-kind :
    (raw : Bytes) (desc : ActionDescriptor)
    → parse_action raw ≡ ok desc
    → action_kind_from_u32 desc.kind_raw ≡ ok desc.kind
unfolding parse_action
parse_action-kind raw desc h = elim (Bool-cases (ltb (length raw) 32)) [
  | inl short ↦ absurd (err-ok (rw short at h))
  | inr long ↦ described raw _ _ desc refl (rw long at h)
]

rejected_agg :
    (desc : ActionDescriptor)
    → action_kind_from_u32 desc.kind_raw ≡ ok desc.kind
    → is_agg_sentinel desc.kind ≡ true
    → IsRejectedAgg desc
rejected_agg desc h s =
    let (low, high) = sentinel_number desc.kind_raw desc.kind h s in
    let seven : desc.kind_raw / 256 ≡ 7 = omega arith in rw seven no_agg_kind

pub action_row-IsRejectedAgg :
    (ecb : EcbDescriptor) (section : Bytes) (entsize i : ℕ) (desc : ActionDescriptor)
    → action_row ecb section entsize i ≡ ok desc
    → is_agg_sentinel desc.kind ≡ true
    → IsRejectedAgg desc
unfolding action_row
action_row-IsRejectedAgg ecb section entsize i desc h s =
    elim (Bool-cases (ltb usize_max ((ecb.action_first + i) * entsize))) [
      | inl huge ↦ absurd (err-ok (rw huge at h))
      | inr small ↦
          elim (Bool-cases (ltb (length section) ((ecb.action_first + i) * entsize + entsize))) [
            | inl past ↦ absurd (err-ok (rw (small, past) at h))
            | inr inside ↦ rejected_agg desc (parse_action-kind _ desc (rw (small, inside) at h)) s
          ]
    ]
