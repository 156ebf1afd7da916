-- ===== src/Lower/Session/Chain.antt =====
-- A walk that ends without a reason to reject has passed plain rows only.
use project_bifrost.Base.{
  ℕ, zero, suc, ◌+◌, ◌<◌, ◌≤◌, ◌≡◌, ◌≢◌, refl, ap, arith, Bool, true, false, none, some, Bytes,
  ◌==◌, Bool-cases, inl, inr, subst,
}
use native.Mathlib.Decide.{dec_lt}
use project_bifrost.Lower.Error.{Result, ok, err, LowerError, RejectReason, err-ok}
use project_bifrost.Lower.Dof.{DofView}
use project_bifrost.Lower.Action.{ActionDescriptor, is_destructive, is_agg_sentinel}
use project_bifrost.Lower.Adapter.{KernelAdapter, EcbStatus, accepted}
use project_bifrost.Lower.Ecb.{
  EcbDescriptor, action_row, walk_rows, walk_actions, chain, call, proceed,
}
use project_bifrost.Lower.Session.{
  Walk, on_action, record_with, declare_sentinel, difo_bytes, finish, walk,
}
use project_bifrost.Lower.Session.Sentinel.{
  rejected-accepted, some-none, IsRejectedAgg, action_row-IsRejectedAgg,
}

-- Row `j` parses, and is neither destructive nor an aggregation sentinel.
abbrev pub IsPlain : (ℕ → Result LowerError ActionDescriptor) → ℕ → Type 0
IsPlain row j =
    (desc : ActionDescriptor) × (row j ≡ ok desc)
    × (is_destructive desc.kind ≡ false)
    × (is_agg_sentinel desc.kind ≡ false)

module _ {A : Type 0} (adapter : KernelAdapter A) (view : DofView) (id : ℕ) where
  sentinel_sticks :
      (desc : ActionDescriptor) (w : Walk A) (a' : A)
      → is_agg_sentinel desc.kind ≡ true
      → IsRejectedAgg desc
      → declare_sentinel adapter desc w ≢ (none, a')
  unfolding declare_sentinel
  sentinel_sticks desc (none, a) a' s r h = some-none (ap (λ (w : Walk A). w.0) (rw (s, r) at h))
  sentinel_sticks desc (some reason, a) a' s r h =
      some-none (ap (λ (w : Walk A). w.0) (rw (s, r) at h))

  recorded :
      (desc : ActionDescriptor) (difo : Result LowerError Bytes) (a a' : A)
      → (is_agg_sentinel desc.kind ≡ true → IsRejectedAgg desc)
      → record_with adapter id desc difo a ≡ (ok tt, (none, a'))
      → is_agg_sentinel desc.kind ≡ false
  recorded desc (err e) a a' r h =
      absurd (err-ok (ap (λ (p : Result LowerError (Unit {0}) × Walk A). p.0) h))
  recorded desc (ok difo) a a' r h = elim (Bool-cases (is_agg_sentinel desc.kind)) [
    | inl agg ↦ absurd (
        sentinel_sticks desc _ a' agg (r agg)
          (ap (λ (p : Result LowerError (Unit {0}) × Walk A). p.1) h))
    | inr no_agg ↦ no_agg
  ]

  taken :
      (i : ℕ) (desc : ActionDescriptor) (a a' : A)
      → (is_agg_sentinel desc.kind ≡ true → IsRejectedAgg desc)
      → on_action adapter view id i desc (none, a) ≡ (ok tt, (none, a'))
      → (is_destructive desc.kind ≡ false) × (is_agg_sentinel desc.kind ≡ false)
  unfolding on_action
  taken i desc a a' r h = elim (Bool-cases (is_destructive desc.kind)) [
    | inl harmful ↦
        absurd
          (some-none (ap (λ (p : Result LowerError (Unit {0}) × Walk A). p.1.0) (rw harmful at h)))
    | inr tame ↦ (tame, recorded desc (difo_bytes adapter view desc) a a' r (rw tame at h))
  ]

  -- Once there is a reason to reject, it stays.
  sticks :
      (left : ℕ) (row : ℕ → Result LowerError ActionDescriptor) (i : ℕ) (r : RejectReason)
      (a a' : A)
      → walk_rows (on_action adapter view id) left row i (some r, a) ≢ (ok tt, (none, a'))
  unfolding walk_rows
  sticks zero row i r a a' h =
      some-none (ap (λ (p : Result LowerError (Unit {0}) × Walk A). p.1.0) h)
  sticks (suc left) row i r a a' h = next_row (row i) (sticks left row (suc i) r a a') h
    where
      next_row :
          (x : Result LowerError ActionDescriptor)
          → (walk_rows (on_action adapter view id) left row (suc i) (some r, a)
              ≢ (ok tt, (none, a')))
          → proceed
              (on_action adapter view id)
              (call (on_action adapter view id) i x (some r, a))
              (walk_rows (on_action adapter view id) left row (suc i))
            ≢ (ok tt, (none, a'))
      next_row (err e) ih h' = err-ok (ap (λ (p : Result LowerError (Unit {0}) × Walk A). p.0) h')
      next_row (ok desc) ih h' = unfold on_action in ih h'

  -- A walk that ends without a reason has passed plain rows only.
  walked :
      (left : ℕ) (row : ℕ → Result LowerError ActionDescriptor) (i : ℕ) (a a' : A)
      → ((k : ℕ) (desc : ActionDescriptor)
          → row k ≡ ok desc
          → is_agg_sentinel desc.kind ≡ true
          → IsRejectedAgg desc)
      → walk_rows (on_action adapter view id) left row i (none, a) ≡ (ok tt, (none, a'))
      → (j : ℕ) → i ≤ j
      → j < i + left
      → IsPlain row j
  unfolding walk_rows
  walked zero row i a a' agg h j low high = absurd (omega arith)
  walked (suc left) row i a a' agg h j low high =
      this_row (row i) (λ b h' later. walked left row (suc i) b a' agg h' j later (omega arith))
        refl h
    where
      f : ℕ → ActionDescriptor → Walk A → Result LowerError (Unit {0}) × Walk A
      f = on_action adapter view id

      after :
          (desc : ActionDescriptor) (y : Result LowerError (Unit {0}) × Walk A)
          → ((b : A)
              → walk_rows f left row (suc i) (none, b) ≡ (ok tt, (none, a'))
              → i < j
              → IsPlain row j)
          → row i ≡ ok desc
          → f i desc (none, a) ≡ y
          → proceed f y (walk_rows f left row (suc i)) ≡ (ok tt, (none, a'))
          → IsPlain row j
      after desc (err x, w) ih e e' h' =
          absurd (err-ok (ap (λ (p : Result LowerError (Unit {0}) × Walk A). p.0) h'))
      after desc (ok u, (some r, b)) ih e e' h' = absurd (sticks left row (suc i) r b a' h')
      after desc (ok u, (none, b)) ih e e' h' = elim (dec_lt i j) [
        | yes later ↦ ih b h' later
        | no here ↦
            let same : i ≡ j = omega arith in
            subst (λ (k : ℕ). IsPlain row k) same
              (let (tame, no_agg) = taken i desc a b (agg i desc e) e' in (desc, e, tame, no_agg))
      ]

      this_row :
          (x : Result LowerError ActionDescriptor)
          → ((b : A)
              → walk_rows f left row (suc i) (none, b) ≡ (ok tt, (none, a'))
              → i < j
              → IsPlain row j)
          → row i ≡ x
          → proceed f (call f i x (none, a)) (walk_rows f left row (suc i)) ≡ (ok tt, (none, a'))
          → IsPlain row j
      this_row (err e) ih e' h' =
          absurd (err-ok (ap (λ (p : Result LowerError (Unit {0}) × Walk A). p.0) h'))
      this_row (ok desc) ih e h' = after desc (f i desc (none, a)) ih e refl h'

  finished :
      (r : Result LowerError (Unit {0}) × Walk A) (k : ℕ) (a' : A)
      → finish adapter id r ≡ (ok (accepted k), a')
      → r ≡ (ok tt, (none, a'))
  finished (err e, (x, a)) k a' h =
      absurd (err-ok (ap (λ (p : Result LowerError EcbStatus × A). p.0) h))
  finished (ok u, (some r, a)) k a' h =
      absurd (rejected-accepted (ap (λ (p : Result LowerError EcbStatus × A). p.0) h))
  finished (ok u, (none, a)) k a' h =
      ap (λ (p : Result LowerError EcbStatus × A). (ok tt, (none, p.1))) h

  pub walk-IsPlain :
      (is_utf8 : Bytes → Bool) (ecb : EcbDescriptor) (section : Bytes) (entsize k i : ℕ) (a a' : A)
      → walk adapter is_utf8 view ecb id a ≡ (ok (accepted k), a')
      → chain view ecb ≡ ok (section, entsize)
      → i < ecb.action_count
      → IsPlain (action_row ecb section entsize) i
  walk-IsPlain is_utf8 ecb section entsize k i a a' h e small =
      walked ecb.action_count (action_row ecb section entsize) 0 a a'
        (action_row-IsRejectedAgg ecb section entsize) go i (omega arith) (omega arith)
    where
      nonzero : (ecb.action_count == 0) ≡ false
      nonzero = ground arith

      go :
          walk_rows
            (on_action adapter view id)
            ecb.action_count
            (action_row ecb section entsize)
            0
            (none, a)
          ≡ (ok tt, (none, a'))
      go =
          unfold walk_actions in
          rw (nonzero, e) at
            (finished (walk_actions (on_action adapter view id) view ecb (none, a)) k a' h)
