-- ===== src/Lower/Session/Statuses.antt =====
-- One verdict for every ECB, and the count of the accepted ones.
use project_bifrost.Base.{
  ℕ, zero, suc, ◌+◌, ◌^◌, ◌≤◌, ◌<◌, ◌≡◌, ◌∙◌, refl, sym, subst, ap, arith, Bool, List, [], ◌∷◌,
  Bytes, map, length,
}
use project_bifrost.Lower.Error.{Result, ok, err, LowerError}
use project_bifrost.Lower.Dof.{DofView}
use project_bifrost.Lower.Adapter.{
  KernelAdapter, EcbStatus, accepted, rejected, no_match, SessionEvent,
}
use project_bifrost.Lower.Ecb.{EcbDescriptor, iter_ecbs}
use project_bifrost.Lower.Session.{
  drive, drive_one, drive_ecbs, report, end_session, ended, begin_session, Run, bump, u32_succ,
}
use native.Mathlib.Nat.{mod-eq_of_lt}

-- `start`, `start + 1`, …, `n` numbers.
unfoldable pub counting : ℕ → ℕ → List ℕ
counting start zero = []
counting start (suc n) = start ∷ counting (suc start) n

abbrev pub accepted_one : EcbStatus → ℕ
accepted_one (accepted id) = 1
accepted_one (rejected r) = 0
accepted_one no_match = 0

unfoldable pub accepted_count : List (ℕ × EcbStatus) → ℕ
accepted_count [] = 0
accepted_count (entry ∷ calls) = accepted_one entry.1 + accepted_count calls

-- `calls` is numbered from `start`; a run that returns `m` from `n` reported `k` items.
abbrev pub IsReported : ℕ → ℕ → ℕ → Result LowerError ℕ → List (ℕ × EcbStatus) → Type 0
IsReported start n k (ok m) calls =
    (map (λ c. c.0) calls ≡ counting start k) × (length calls ≡ k) × (m ≡ n + accepted_count calls)
IsReported start n k (err e) calls = map (λ c. c.0) calls ≡ counting start (length calls)

u32_succ_small : (n : ℕ) → n + 1 < 2 ^ 32 → u32_succ n ≡ suc n
u32_succ_small n h = mod-eq_of_lt h ∙ omega arith

at_most_one : (status : EcbStatus) → accepted_one status ≤ 1
at_most_one (accepted id) = omega arith
at_most_one (rejected r) = omega arith
at_most_one no_match = omega arith

bump-count : (status : EcbStatus) (n : ℕ) → n + 1 < 2 ^ 32 → bump status n ≡ n + accepted_one status
bump-count (accepted id) n h = omega (arith, u32_succ_small n h)
bump-count (rejected r) n h = omega arith
bump-count no_match n h = omega arith

module _ {A : Type 0} where
  add_entry :
      (start n k : ℕ) (status : EcbStatus) (run : Run A)
      → n + 1 < 2 ^ 32
      → IsReported (suc start) (bump status n) k run.0 run.1.1
      → IsReported start n (suc k) run.0 ((start, status) ∷ run.1.1)
  unfolding counting accepted_count
  add_entry start n k status (ok m, (a, calls)) h (i, l, c) =
      (ap (λ (t : List ℕ). start ∷ t) i, ap suc l, omega (arith, bump-count status n h))
  add_entry start n k status (err e, (a, calls)) h i = ap (λ (t : List ℕ). start ∷ t) i

  report_entry :
      (start n k : ℕ) (r : Result LowerError EcbStatus × A) (rest : ℕ → A → Run A)
      → n + suc k < 2 ^ 32
      → ((m : ℕ) (a : A) → m + k < 2 ^ 32 → IsReported (suc start) m k (rest m a).0 (rest m a).1.1)
      → IsReported start n (suc k) (report start n r rest).0 (report start n r rest).1.1
  report_entry start n k (ok status, a) rest h ih =
      add_entry start n k status (rest (bump status n) a) (omega arith) (
        ih (bump status n) a (omega (arith, bump-count status n (omega arith), at_most_one status)))
  report_entry start n k (err e, a) rest h ih = unfold counting in refl

module _ {A : Type 0} (adapter : KernelAdapter A) (is_utf8 : Bytes → Bool) (view : DofView) where
  drive_ecbs_reports :
      (ecbs : List (Result LowerError EcbDescriptor)) (start n : ℕ) (a : A)
      → start + length ecbs < 2 ^ 32
      → n + length ecbs < 2 ^ 32
      → IsReported start n
          (length ecbs)
          (drive_ecbs adapter is_utf8 view ecbs start n a).0
          (drive_ecbs adapter is_utf8 view ecbs start n a).1.1
  unfolding drive_ecbs
  drive_ecbs_reports [] start n a hs hn =
      unfold counting accepted_count in (refl, refl, omega arith)
  drive_ecbs_reports (err e ∷ ecbs) start n a hs hn = unfold counting in refl
  drive_ecbs_reports (ok ecb ∷ ecbs) start n a hs hn =
      report_entry start n (length ecbs) (drive_one adapter is_utf8 view ecb a)
        (drive_ecbs adapter is_utf8 view ecbs (u32_succ start)) hn
        (λ m a' hm.
          subst
            (λ s.
              IsReported (suc start) m (length ecbs) (drive_ecbs adapter is_utf8 view ecbs s m a').0
                (drive_ecbs adapter is_utf8 view ecbs s m a').1.1)
            (sym (u32_succ_small start (omega arith)))
            (drive_ecbs_reports ecbs (suc start) m a' (omega arith) hm))

  close :
      (k : ℕ) (run : Run A)
      → IsReported 0 0 k run.0 run.1.1
      → IsReported 0 0 k
          (end_session adapter is_utf8 view run).0
          (end_session adapter is_utf8 view run).1.1
  close k (ok m, (a, calls)) h = at_end (adapter.on_session_event SessionEvent.end a)
    where
      at_end :
          (r : Result LowerError (Unit {0}) × A)
          → IsReported 0 0 k (ended m calls r).0 (ended m calls r).1.1
      at_end (ok u, a') = h
      at_end (err e, a') = cc
  close k (err e, (a, calls)) h = h

-- In a session over fewer than 2 ^ 32 ECBs `on_status` is called with 0, 1, 2, …, in this order; and where the session runs to its end, it
-- was called once for every ECB, and `drive` returns the number of the verdicts `Accepted`.
pub drive_reports :
    {A : Type 0} (adapter : KernelAdapter A) (is_utf8 : Bytes → Bool) (view : DofView) (a : A)
    → length (iter_ecbs view) < 2 ^ 32
    → IsReported 0 0
        (length (iter_ecbs view))
        (drive adapter is_utf8 view a).0
        (drive adapter is_utf8 view a).1.1
unfolding drive
drive_reports {A} adapter is_utf8 view a few =
    at_begin (adapter.on_session_event SessionEvent.begin a)
  where
    at_begin :
        (r : Result LowerError (Unit {0}) × A)
        → IsReported 0 0
            (length (iter_ecbs view))
            (begin_session adapter is_utf8 view r).0
            (begin_session adapter is_utf8 view r).1.1
    at_begin (ok u, a') =
        close adapter is_utf8 view (length (iter_ecbs view))
          (drive_ecbs adapter is_utf8 view (iter_ecbs view) 0 0 a')
          (drive_ecbs_reports adapter is_utf8 view (iter_ecbs view) 0 0 a' (omega arith)
            (omega arith))
    at_begin (err e, a') = unfold counting in refl
