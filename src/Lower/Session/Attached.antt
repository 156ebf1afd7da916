-- ===== src/Lower/Session/Attached.antt =====
-- A session leaves the probes of the accepted ECBs attached.
use project_bifrost.Base.{
  ℕ, ◌≡◌, ◌⊎◌, inl, inr, refl, ap, ◌∙◌, subst, Bool, not, Option, none, some, List, [], ◌∷◌, Bytes,
  ◌==◌, Bool-cases,
}
use project_bifrost.Lower.Error.{Result, ok, err, LowerError, RejectReason}
use project_bifrost.Lower.Dof.{DofView, section_bytes}
use project_bifrost.Lower.Adapter.{
  KernelAdapter, ProbeTarget, EcbStatus, accepted, rejected, no_match, SessionEvent,
}
use project_bifrost.Lower.Ecb.{EcbDescriptor, iter_ecbs, walk_actions}
use project_bifrost.Lower.Resolve.{resolve_probe_target}
use project_bifrost.Lower.Session.{
  Walk, Run, bump, report, ended, on_action, finish, walk, after_predicate, bind_with, after_attach,
  attach, drive_one, drive_ecbs, begin_session, end_session, drive, u32_succ,
}
use project_bifrost.Lower.Session.Ledger.{with_ledger, keep, enter, remove, remove-head, walk_kept}

-- The ledger behind a verdict: an accepted ECB's probe is new on it.
abbrev pub after_status : EcbStatus → List ℕ → List ℕ
after_status (accepted id) live = id ∷ live
after_status (rejected r) live = live
after_status no_match live = live

-- The ledger behind verdicts in order.
unfoldable pub attached : List (ℕ × EcbStatus) → List ℕ → List ℕ
attached [] live = live
attached (entry ∷ calls) live = attached calls (after_status entry.1 live)

-- With an error, one more probe may be left.
abbrev pub OneMore : List ℕ → List ℕ → Type 0
OneMore live live' = (live' ≡ live) ⊎ ((id : ℕ) × (live' ≡ id ∷ live))

abbrev pub IsSettled : List ℕ → Result LowerError EcbStatus → List ℕ → Type 0
IsSettled live (ok status) live' = live' ≡ after_status status live
IsSettled live (err e) live' = OneMore live live'

abbrev pub IsLedger : List ℕ → Result LowerError ℕ → List (ℕ × EcbStatus) → List ℕ → Type 0
IsLedger live (ok n) calls live' = live' ≡ attached calls live
IsLedger live (err e) calls live' = OneMore (attached calls live) live'

add_entry :
    (start : ℕ) (status : EcbStatus) (live : List ℕ) (r : Result LowerError ℕ)
    (calls : List (ℕ × EcbStatus)) (live' : List ℕ)
    → IsLedger (after_status status live) r calls live'
    → IsLedger live r ((start, status) ∷ calls) live'
unfolding attached
add_entry start status live (ok n) calls live' h = h
add_entry start status live (err e) calls live' h = h

module _ {A : Type 0} (adapter : KernelAdapter A) where
  abbrev Spied : KernelAdapter (A × List ℕ)
  Spied = with_ledger adapter

  abbrev Settles : List ℕ → Result LowerError EcbStatus × (A × List ℕ) → Type 0
  Settles live r = IsSettled live r.0 r.1.1

  finish-Settles :
      (id : ℕ) (live : List ℕ) (r : Result LowerError (Unit {0}) × Walk (A × List ℕ))
      → r.1.1.1 ≡ id ∷ live
      → Settles live (finish Spied id r)
  finish-Settles id live (err e, w) h = inr (id, h)
  finish-Settles id live (ok u, (some r, s)) h = ap (remove id) h ∙ remove-head id live
  finish-Settles id live (ok u, (none, s)) h = h

  module _ (is_utf8 : Bytes → Bool) (view : DofView) where
    walk-Settles :
        (ecb : EcbDescriptor) (id : ℕ) (a : A) (live : List ℕ)
        → Settles live (walk Spied is_utf8 view ecb id (a, id ∷ live))
    walk-Settles ecb id a live =
        finish-Settles id live
          (walk_actions (on_action Spied view id) view ecb (none, (a, id ∷ live)))
          (walk_kept adapter view id ecb (none, (a, id ∷ live)))

    predicate-Settles :
        (ecb : EcbDescriptor) (id : ℕ) (r : Result RejectReason (Unit {0}) × A) (live : List ℕ)
        → Settles live (after_predicate Spied is_utf8 view ecb id (keep (id ∷ live) r))
    predicate-Settles ecb id (err r, a) live = remove-head id live
    predicate-Settles ecb id (ok u, a) live = walk-Settles ecb id a live

    bind-Settles :
        (ecb : EcbDescriptor) (id : ℕ) (bytes : Result LowerError Bytes) (a : A) (live : List ℕ)
        → Settles live (bind_with Spied is_utf8 view ecb id bytes (a, id ∷ live))
    bind-Settles ecb id (err e) a live = inr (id, refl)
    bind-Settles ecb id (ok bytes) a live =
        predicate-Settles ecb id (adapter.bind_predicate id bytes a) live

    attached-Settles :
        (ecb : EcbDescriptor) (r : Result RejectReason ℕ × A) (live : List ℕ)
        → Settles live (after_attach Spied is_utf8 view ecb (enter live r))
    attached-Settles ecb (err r, a) live = refl
    attached-Settles ecb (ok id, a) live = elim (Bool-cases (not (ecb.pred_section == 0))) [
      | inl bound ↦ rw bound (bind-Settles ecb id (section_bytes view ecb.pred_section) a live)
      | inr free ↦ rw free (walk-Settles ecb id a live)
    ]

    target-Settles :
        (ecb : EcbDescriptor) (target : Result LowerError (Option ProbeTarget)) (a : A)
        (live : List ℕ)
        → Settles live (attach Spied is_utf8 view ecb target (a, live))
    target-Settles ecb (err e) a live = inl refl
    target-Settles ecb (ok none) a live = refl
    target-Settles ecb (ok (some target)) a live =
        elim (Bool-cases (not (adapter.provider_supports target.provider a))) [
          | inl alien ↦ rw alien
          | inr known ↦ rw known (attached-Settles ecb (adapter.attach_probe target a) live)
        ]

    -- One ECB: an accepted one leaves its probe attached, any other verdict none, and an error at
    -- most its own.
    drive_one-Settles :
        (ecb : EcbDescriptor) (a : A) (live : List ℕ)
        → Settles live (drive_one Spied is_utf8 view ecb (a, live))
    unfolding drive_one
    drive_one-Settles ecb a live =
        target-Settles ecb (resolve_probe_target is_utf8 view ecb.probe_section ecb.probe_index) a
          live

    report-Settles :
        (start n : ℕ) (r : Result LowerError EcbStatus × (A × List ℕ))
        (rest : ℕ → A × List ℕ → Run (A × List ℕ)) (live : List ℕ)
        → Settles live r
        → ((m : ℕ) (a : A) (l : List ℕ)
            → IsLedger l (rest m (a, l)).0 (rest m (a, l)).1.1 (rest m (a, l)).1.0.1)
        → IsLedger live
            (report start n r rest).0
            (report start n r rest).1.1
            (report start n r rest).1.0.1
    report-Settles start n (err e, s) rest live h ih = unfold attached in h
    report-Settles start n (ok status, (a, l)) rest live h ih =
        let next : Run (A × List ℕ) = rest (bump status n) (a, l) in
        add_entry start status live next.0 next.1.1 next.1.0.1
          (subst (λ (t : List ℕ). IsLedger t next.0 next.1.1 next.1.0.1) h (ih (bump status n) a l))

    ecbs-Settles :
        (ecbs : List (Result LowerError EcbDescriptor)) (start n : ℕ) (a : A) (live : List ℕ)
        → IsLedger live
            (drive_ecbs Spied is_utf8 view ecbs start n (a, live)).0
            (drive_ecbs Spied is_utf8 view ecbs start n (a, live)).1.1
            (drive_ecbs Spied is_utf8 view ecbs start n (a, live)).1.0.1
    unfolding drive_ecbs
    ecbs-Settles [] start n a live = unfold attached in refl
    ecbs-Settles (err e ∷ ecbs) start n a live = unfold attached in inl refl
    ecbs-Settles (ok ecb ∷ ecbs) start n a live =
        report-Settles start n (drive_one Spied is_utf8 view ecb (a, live))
          (drive_ecbs Spied is_utf8 view ecbs (u32_succ start)) live (drive_one-Settles ecb a live)
          (ecbs-Settles ecbs (u32_succ start))

    event_keeps :
        (n : ℕ) (calls : List (ℕ × EcbStatus)) (live live' : List ℕ)
        (r : Result LowerError (Unit {0}) × A)
        → live' ≡ attached calls live
        → IsLedger live
            (ended n calls (keep live' r)).0
            (ended n calls (keep live' r)).1.1
            (ended n calls (keep live' r)).1.0.1
    event_keeps n calls live live' (ok u, a) h = h
    event_keeps n calls live live' (err e, a) h = inl h

    end_keeps :
        (run : Run (A × List ℕ)) (live : List ℕ)
        → IsLedger live run.0 run.1.1 run.1.0.1
        → IsLedger live
            (end_session Spied is_utf8 view run).0
            (end_session Spied is_utf8 view run).1.1
            (end_session Spied is_utf8 view run).1.0.1
    end_keeps (ok n, ((a, l), calls)) live h =
        event_keeps n calls live l (adapter.on_session_event SessionEvent.end a) h
    end_keeps (err e, (s, calls)) live h = h

-- A session over an adapter that keeps a ledger of attached probes: if it runs to its end, the
-- probes left attached are those of the verdicts `Accepted`, on top of those attached before, and
-- each ECB with another verdict left none; if it fails, at most one probe more is left.
pub drive_leaves_accepted :
    {A : Type 0} (adapter : KernelAdapter A) (is_utf8 : Bytes → Bool) (view : DofView) (a : A)
    (live : List ℕ)
    → IsLedger live
        (drive (with_ledger adapter) is_utf8 view (a, live)).0
        (drive (with_ledger adapter) is_utf8 view (a, live)).1.1
        (drive (with_ledger adapter) is_utf8 view (a, live)).1.0.1
unfolding drive
drive_leaves_accepted {A} adapter is_utf8 view a live =
    at_begin (adapter.on_session_event SessionEvent.begin a)
  where
    at_begin :
        (r : Result LowerError (Unit {0}) × A)
        → IsLedger live
            (begin_session (with_ledger adapter) is_utf8 view (keep live r)).0
            (begin_session (with_ledger adapter) is_utf8 view (keep live r)).1.1
            (begin_session (with_ledger adapter) is_utf8 view (keep live r)).1.0.1
    at_begin (err e, a') = unfold attached in inl refl
    at_begin (ok u, a') =
        end_keeps adapter is_utf8 view
          (drive_ecbs (with_ledger adapter) is_utf8 view (iter_ecbs view) 0 0 (a', live)) live
          (ecbs-Settles adapter is_utf8 view (iter_ecbs view) 0 0 a' live)
