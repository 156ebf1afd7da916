-- ===== src/Lower/Session.antt =====
-- session.rs: the driver that hands every ECB of a blob to an adapter.
pub mod Sentinel
pub mod Chain
pub mod Accepted
pub mod Policy
pub mod Ledger
pub mod Attached
pub mod Statuses
use project_bifrost.Base.{
  ℕ, zero, suc, ◌+◌, ◌/◌, ◌%◌, ◌^◌, Bool, not, Option, none, some, List, [], ◌∷◌, Bytes, ◌==◌,
  if◌then◌else◌,
}
use project_bifrost.Lower.Error.{
  Result, ok, err, LowerError, RejectReason, no_provider, destructive_disabled,
  agg_kind_unsupported,
}
use project_bifrost.Lower.Dof.{DofView, section_bytes}
use project_bifrost.Lower.Agg.{AggKind, agg_kind_from_u32, default_bucket_count}
use project_bifrost.Lower.Action.{ActionDescriptor, is_destructive, is_agg_sentinel}
use project_bifrost.Lower.Adapter.{
  KernelAdapter, ProbeTarget, EcbStatus, accepted, rejected, no_match, SessionEvent,
}
use project_bifrost.Lower.Ecb.{EcbDescriptor, iter_ecbs, walk_actions}
use project_bifrost.Lower.Resolve.{resolve_probe_target}

-- The state of `drive_one`'s closure: `action_err`, and the adapter.
abbrev pub Walk : Type 0 → Type 0
Walk A = Option RejectReason × A

-- `action_err.get_or_insert(r)`
abbrev pub get_or_insert : Option RejectReason → RejectReason → Option RejectReason
get_or_insert none r = some r
get_or_insert (some r') r = some r'

-- The two counters are `u32`, and `+= 1` wraps, as it does without overflow checks.
abbrev pub u32_succ : ℕ → ℕ
u32_succ n = (n + 1) % 2 ^ 32

abbrev pub bump : EcbStatus → ℕ → ℕ
bump (accepted id) n = u32_succ n
bump (rejected r) n = n
bump no_match n = n

-- What `on_status` was called with, in order, comes back with the result.
abbrev pub Run : Type 0 → Type 0
Run A = Result LowerError ℕ × (A × List (ℕ × EcbStatus))

module _ {A : Type 0} where
  abbrev pub on_status : ℕ × EcbStatus → Run A → Run A
  on_status call (r, (a, calls)) = (r, (a, call ∷ calls))

  abbrev pub report : ℕ → ℕ → Result LowerError EcbStatus × A → (ℕ → A → Run A) → Run A
  report ecb_index n (err e, a) rest = (err e, (a, []))
  report ecb_index n (ok status, a) rest = on_status (ecb_index, status) (rest (bump status n) a)

  abbrev pub ended : ℕ → List (ℕ × EcbStatus) → Result LowerError (Unit {0}) × A → Run A
  ended n calls (ok u, a) = (ok n, (a, calls))
  ended n calls (err e, a) = (err e, (a, calls))

module _ {A : Type 0} (adapter : KernelAdapter A) where
  abbrev pub note_error : Option RejectReason → Result RejectReason (Unit {0}) × A → Walk A
  note_error action_err (ok u, a) = (action_err, a)
  note_error action_err (err r, a) = (get_or_insert action_err r, a)

  abbrev pub declare : ℕ → Result LowerError AggKind → Walk A → Walk A
  declare var_id (ok agg_kind) (action_err, a) =
      note_error action_err
        (adapter.declare_aggregation var_id agg_kind (default_bucket_count agg_kind) a)
  declare var_id (err e) (action_err, a) = (get_or_insert action_err agg_kind_unsupported, a)

  -- What follows `record_action`: an aggregation sentinel's slot is declared.
  unfoldable pub declare_sentinel : ActionDescriptor → Walk A → Walk A
  declare_sentinel action w =
      if is_agg_sentinel action.kind
      then declare (action.arg % 2 ^ 32) (agg_kind_from_u32 (action.kind_raw / 256)) w
      else w

  -- `view.section_bytes(action.difo_section)?`, or no bytes.
  abbrev pub difo_bytes : DofView → ActionDescriptor → Result LowerError Bytes
  difo_bytes view action =
      if action.difo_section == 0 then ok [] else section_bytes view action.difo_section

  abbrev pub record_with :
      ℕ → ActionDescriptor → Result LowerError Bytes → A → Result LowerError (Unit {0}) × Walk A
  record_with id action (err e) a = (err e, (none, a))
  record_with id action (ok difo) a =
      (ok tt, declare_sentinel action (note_error none (adapter.record_action id action difo a)))

  -- The closure given to `walk_actions`.
  unfoldable pub on_action :
      DofView → ℕ → ℕ → ActionDescriptor → Walk A → Result LowerError (Unit {0}) × Walk A
  on_action view id i action (some r, a) = (ok tt, (some r, a))
  on_action view id i action (none, a) =
      if is_destructive action.kind
      then (ok tt, (some destructive_disabled, a))
      else record_with id action (difo_bytes view action) a

  -- The verdict behind the walk.
  abbrev pub finish : ℕ → Result LowerError (Unit {0}) × Walk A → Result LowerError EcbStatus × A
  finish id (err e, (action_err, a)) = (err e, a)
  finish id (ok u, (some r, a)) = (ok (rejected r), adapter.detach_probe id a)
  finish id (ok u, (none, a)) = (ok (accepted id), a)

  module _ (is_utf8 : Bytes → Bool) (view : DofView) where
    abbrev pub walk : EcbDescriptor → ℕ → A → Result LowerError EcbStatus × A
    walk ecb id a = finish id (walk_actions (on_action view id) view ecb (none, a))

    abbrev pub after_predicate :
        EcbDescriptor → ℕ → Result RejectReason (Unit {0}) × A → Result LowerError EcbStatus × A
    after_predicate ecb id (err r, a) = (ok (rejected r), adapter.detach_probe id a)
    after_predicate ecb id (ok u, a) = walk ecb id a

    abbrev pub bind_with :
        EcbDescriptor → ℕ → Result LowerError Bytes → A → Result LowerError EcbStatus × A
    bind_with ecb id (err e) a = (err e, a)
    bind_with ecb id (ok bytes) a = after_predicate ecb id (adapter.bind_predicate id bytes a)

    abbrev pub after_attach :
        EcbDescriptor → Result RejectReason ℕ × A → Result LowerError EcbStatus × A
    after_attach ecb (err r, a) = (ok (rejected r), a)
    after_attach ecb (ok id, a) =
        if not (ecb.pred_section == 0)
        then bind_with ecb id (section_bytes view ecb.pred_section) a
        else walk ecb id a

    abbrev pub attach :
        EcbDescriptor → Result LowerError (Option ProbeTarget) → A → Result LowerError EcbStatus × A
    attach ecb (err e) a = (err e, a)
    attach ecb (ok none) a = (ok no_match, a)
    attach ecb (ok (some target)) a =
        if not (adapter.provider_supports target.provider a)
        then (ok (rejected no_provider), a)
        else after_attach ecb (adapter.attach_probe target a)

    unfoldable pub drive_one : EcbDescriptor → A → Result LowerError EcbStatus × A
    drive_one ecb a =
        attach ecb (resolve_probe_target is_utf8 view ecb.probe_section ecb.probe_index) a

    abbrev pub drive_item : ℕ → ℕ → Result LowerError EcbDescriptor → A → (ℕ → A → Run A) → Run A
    drive_item ecb_index n (err e) a rest = (err e, (a, []))
    drive_item ecb_index n (ok ecb) a rest = report ecb_index n (drive_one ecb a) rest

    -- The `for` loop, with `ecb_index` and the accepted count `n`.
    unfoldable pub drive_ecbs : List (Result LowerError EcbDescriptor) → ℕ → ℕ → A → Run A
    drive_ecbs [] ecb_index n a = (ok n, (a, []))
    drive_ecbs (ecb ∷ ecbs) ecb_index n a =
        drive_item ecb_index n ecb a (drive_ecbs ecbs (u32_succ ecb_index))

    abbrev pub end_session : Run A → Run A
    end_session (err e, (a, calls)) = (err e, (a, calls))
    end_session (ok n, (a, calls)) = ended n calls (adapter.on_session_event SessionEvent.end a)

    abbrev pub begin_session : Result LowerError (Unit {0}) × A → Run A
    begin_session (err e, a) = (err e, (a, []))
    begin_session (ok u, a) = end_session (drive_ecbs (iter_ecbs view) 0 0 a)

    unfoldable pub drive : A → Run A
    drive a = begin_session (adapter.on_session_event SessionEvent.begin a)
