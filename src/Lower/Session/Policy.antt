-- ===== src/Lower/Session/Policy.antt =====
-- Destructive actions and aggregation sentinels.
use project_bifrost.Base.{
  ℕ, ◌≡◌, refl, Bool, false, not, List, [], ◌∷◌, Option, none, some, Bytes, ◌==◌, Bool-cases, inl,
  inr, if◌then◌else◌,
}
use project_bifrost.Lower.Error.{Result, ok, err, LowerError, RejectReason}
use project_bifrost.Lower.Dof.{DofView, section_bytes}
use project_bifrost.Lower.Action.{ActionDescriptor, is_destructive}
use project_bifrost.Lower.Adapter.{KernelAdapter, ProbeTarget, SessionEvent}
use project_bifrost.Lower.Ecb.{EcbDescriptor, iter_ecbs, walk_actions}
use project_bifrost.Lower.Resolve.{resolve_probe_target}
use project_bifrost.Lower.Session
use project_bifrost.Lower.Session.{
  on_action, drive, Run, Walk, record_with, declare_sentinel, finish, walk, after_predicate,
  bind_with, after_attach, attach, drive_one, drive_ecbs, report, begin_session, end_session,
  u32_succ,
}

-- An adapter that answers as `adapter` does, but does `harm` when it is asked to record a destructive
-- action.
abbrev pub with_harm :
    {A : Type 0}
    → KernelAdapter A
    → (ℕ → ActionDescriptor → Bytes → A → Result RejectReason (Unit {0}) × A)
    → KernelAdapter A
with_harm adapter harm = record adapter {
  record_action = λ id action difo a.
      if is_destructive action.kind
      then harm id action difo a
      else adapter.record_action id action difo a;
}

module _ {A : Type 0} (adapter : KernelAdapter A)
    (harm : ℕ → ActionDescriptor → Bytes → A → Result RejectReason (Unit {0}) × A) where
  same_record :
      (id : ℕ) (action : ActionDescriptor) (difo : Result LowerError Bytes) (a : A)
      → is_destructive action.kind ≡ false
      → record_with (with_harm adapter harm) id action difo a ≡ record_with adapter id action difo a
  unfolding declare_sentinel
  same_record id action (err e) a h = refl
  same_record id action (ok difo) a h = rw h

  same_action :
      (view : DofView) (id i : ℕ) (action : ActionDescriptor) (w : Walk A)
      → on_action (with_harm adapter harm) view id i action w ≡ on_action adapter view id i action w
  unfolding on_action
  same_action view id i action (some r, a) = refl
  same_action view id i action (none, a) = elim (Bool-cases (is_destructive action.kind)) [
    | inl harmful ↦ rw harmful
    | inr tame ↦ rw tame (same_record id action (Session.difo_bytes adapter view action) a tame)
  ]

  module _ (is_utf8 : Bytes → Bool) (view : DofView) where
    same_walk :
        (ecb : EcbDescriptor) (id : ℕ) (a : A)
        → walk (with_harm adapter harm) is_utf8 view ecb id a ≡ walk adapter is_utf8 view ecb id a
    same_walk ecb id a = λ t.
        finish adapter id
          (walk_actions (λ i action w. same_action view id i action w t) view ecb (none, a))

    same_after_predicate :
        (ecb : EcbDescriptor) (id : ℕ) (r : Result RejectReason (Unit {0}) × A)
        → after_predicate (with_harm adapter harm) is_utf8 view ecb id r
          ≡ after_predicate adapter is_utf8 view ecb id r
    same_after_predicate ecb id (err r, a) = refl
    same_after_predicate ecb id (ok u, a) = same_walk ecb id a

    same_bind :
        (ecb : EcbDescriptor) (id : ℕ) (bytes : Result LowerError Bytes) (a : A)
        → bind_with (with_harm adapter harm) is_utf8 view ecb id bytes a
          ≡ bind_with adapter is_utf8 view ecb id bytes a
    same_bind ecb id (err e) a = refl
    same_bind ecb id (ok bytes) a = same_after_predicate ecb id (adapter.bind_predicate id bytes a)

    same_after_attach :
        (ecb : EcbDescriptor) (r : Result RejectReason ℕ × A)
        → after_attach (with_harm adapter harm) is_utf8 view ecb r
          ≡ after_attach adapter is_utf8 view ecb r
    same_after_attach ecb (err r, a) = refl
    same_after_attach ecb (ok id, a) = elim (Bool-cases (not (ecb.pred_section == 0))) [
      | inl bound ↦ rw bound (same_bind ecb id (section_bytes view ecb.pred_section) a)
      | inr free ↦ rw free (same_walk ecb id a)
    ]

    same_attach :
        (ecb : EcbDescriptor) (target : Result LowerError (Option ProbeTarget)) (a : A)
        → attach (with_harm adapter harm) is_utf8 view ecb target a
          ≡ attach adapter is_utf8 view ecb target a
    same_attach ecb (err e) a = refl
    same_attach ecb (ok none) a = refl
    same_attach ecb (ok (some target)) a =
        elim (Bool-cases (not (adapter.provider_supports target.provider a))) [
          | inl alien ↦ rw alien
          | inr known ↦ rw known (same_after_attach ecb (adapter.attach_probe target a))
        ]

    same_drive_one :
        (ecb : EcbDescriptor) (a : A)
        → drive_one (with_harm adapter harm) is_utf8 view ecb a
          ≡ drive_one adapter is_utf8 view ecb a
    unfolding drive_one
    same_drive_one ecb a =
        same_attach ecb (resolve_probe_target is_utf8 view ecb.probe_section ecb.probe_index) a

    same_drive_ecbs :
        (ecbs : List (Result LowerError EcbDescriptor)) (start n : ℕ) (a : A)
        → drive_ecbs (with_harm adapter harm) is_utf8 view ecbs start n a
          ≡ drive_ecbs adapter is_utf8 view ecbs start n a
    unfolding drive_ecbs
    same_drive_ecbs [] start n a = refl
    same_drive_ecbs (err e ∷ ecbs) start n a = refl
    same_drive_ecbs (ok ecb ∷ ecbs) start n a = λ t.
        report start n (same_drive_one ecb a t)
          (λ m a'. same_drive_ecbs ecbs (u32_succ start) m a' t)

-- A session never hands a destructive action to the adapter: whatever `record_action` would do with
-- destructive actions, the session's result, the adapter's state and the reported verdicts are the
-- same.
pub drive_ignores_harm :
    {A : Type 0} (adapter : KernelAdapter A)
    (harm : ℕ → ActionDescriptor → Bytes → A → Result RejectReason (Unit {0}) × A)
    (is_utf8 : Bytes → Bool) (view : DofView) (a : A)
    → drive (with_harm adapter harm) is_utf8 view a ≡ drive adapter is_utf8 view a
unfolding drive
drive_ignores_harm {A} adapter harm is_utf8 view a =
    at_begin (adapter.on_session_event SessionEvent.begin a)
  where
    at_begin :
        (r : Result LowerError (Unit {0}) × A)
        → begin_session (with_harm adapter harm) is_utf8 view r
          ≡ begin_session adapter is_utf8 view r
    at_begin (err e, a') = refl
    at_begin (ok u, a') = λ t.
        end_session adapter is_utf8 view
          (same_drive_ecbs adapter harm is_utf8 view (iter_ecbs view) 0 0 a' t)
