-- ===== src/Lower/Session/Accepted.antt =====
-- What an accepted ECB consists of.
use project_bifrost.Base.{
  ℕ, ◌<◌, ◌≡◌, ap, Bool, false, not, Option, none, some, Bytes, ◌==◌, Bool-cases, inl, inr,
}
use project_bifrost.Lower.Error.{Result, ok, err, LowerError, RejectReason, err-ok}
use project_bifrost.Lower.Dof.{DofView, section_bytes}
use project_bifrost.Lower.Action.{ActionDescriptor, is_destructive, is_agg_sentinel}
use project_bifrost.Lower.Adapter.{KernelAdapter, ProbeTarget, EcbStatus, accepted}
use project_bifrost.Lower.Ecb.{EcbDescriptor, action_row, chain}
use project_bifrost.Lower.Resolve.{resolve_probe_target}
use project_bifrost.Lower.Session.{after_predicate, bind_with, after_attach, attach, drive_one}
use project_bifrost.Lower.Session.Sentinel.{rejected-accepted, no_match-accepted}
use project_bifrost.Lower.Session.Chain.{IsPlain, walk-IsPlain}

module _ {A : Type 0} (adapter : KernelAdapter A) (is_utf8 : Bytes → Bool) (view : DofView)
    (ecb : EcbDescriptor) (section : Bytes) (entsize k i : ℕ) (a' : A)
    (e : chain view ecb ≡ ok (section, entsize)) (small : i < ecb.action_count) where
  abbrev Plain : Type 0
  Plain = IsPlain (action_row ecb section entsize) i

  abbrev Accepts : Result LowerError EcbStatus × A → Type 0
  Accepts r = r ≡ (ok (accepted k), a')

  status_of : (r : Result LowerError EcbStatus × A) → Accepts r → r.0 ≡ ok (accepted k)
  status_of r h = ap (λ (p : Result LowerError EcbStatus × A). p.0) h

  plain_predicate :
      (id : ℕ) (r : Result RejectReason (Unit {0}) × A)
      → Accepts (after_predicate adapter is_utf8 view ecb id r)
      → Plain
  plain_predicate id (err r, a) h = absurd (rejected-accepted (status_of _ h))
  plain_predicate id (ok u, a) h =
      walk-IsPlain adapter view id is_utf8 ecb section entsize k i a a' h e small

  plain_bind :
      (id : ℕ) (bytes : Result LowerError Bytes) (a : A)
      → Accepts (bind_with adapter is_utf8 view ecb id bytes a)
      → Plain
  plain_bind id (err x) a h = absurd (err-ok (status_of _ h))
  plain_bind id (ok bytes) a h = plain_predicate id (adapter.bind_predicate id bytes a) h

  plain_attached :
      (r : Result RejectReason ℕ × A) → Accepts (after_attach adapter is_utf8 view ecb r) → Plain
  plain_attached (err r, a) h = absurd (rejected-accepted (status_of _ h))
  plain_attached (ok id, a) h = elim (Bool-cases (not (ecb.pred_section == 0))) [
    | inl bound ↦ plain_bind id (section_bytes view ecb.pred_section) a (rw bound at h)
    | inr free ↦
        walk-IsPlain adapter view id is_utf8 ecb section entsize k i a a' (rw free at h) e small
  ]

  plain_target :
      (target : Result LowerError (Option ProbeTarget)) (a : A)
      → Accepts (attach adapter is_utf8 view ecb target a)
      → Plain
  plain_target (err x) a h = absurd (err-ok (status_of _ h))
  plain_target (ok none) a h = absurd (no_match-accepted (status_of _ h))
  plain_target (ok (some target)) a h =
      elim (Bool-cases (not (adapter.provider_supports target.provider a))) [
        | inl alien ↦ absurd (rejected-accepted (status_of _ (rw alien at h)))
        | inr known ↦ plain_attached (adapter.attach_probe target a) (rw known at h)
      ]

-- An ECB is accepted only if every row of its action chain parses, none is a destructive action,
-- and none is an aggregation sentinel.
pub drive_one_accepts_plain :
    {A : Type 0} (adapter : KernelAdapter A) (is_utf8 : Bytes → Bool) (view : DofView)
    (ecb : EcbDescriptor) (section : Bytes) (entsize k i : ℕ) (a a' : A)
    → drive_one adapter is_utf8 view ecb a ≡ (ok (accepted k), a')
    → chain view ecb ≡ ok (section, entsize)
    → i < ecb.action_count
    → (desc : ActionDescriptor) × (action_row ecb section entsize i ≡ ok desc)
      × (is_destructive desc.kind ≡ false)
      × (is_agg_sentinel desc.kind ≡ false)
unfolding drive_one
drive_one_accepts_plain adapter is_utf8 view ecb section entsize k i a a' h e small =
    plain_target adapter is_utf8 view ecb section entsize k i a' e small
      (resolve_probe_target is_utf8 view ecb.probe_section ecb.probe_index) a h
