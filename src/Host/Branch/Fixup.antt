-- ===== src/Host/Branch/Fixup.antt =====
-- All pending branches are patched, one after the other.
use project_bifrost.Base.{
  ℕ, ◌+◌, ◌*◌, ◌≤◌, ◌≡◌, ◌≢◌, refl, arith, ap, ◌∙◌, sym, subst, List, [], ◌∷◌, All, map, length,
  Bytes, Outcome, ok, err, panic, some, pos,
}
use project_bifrost.Host.Verify.{fields_at, target_of}
use project_bifrost.Host.Branch.{
  LoweringError, LowerState, get, fixup_branch, fixup_each, fixup_branches,
}
use project_bifrost.Host.Branch.Targets.{IsNear, Patches, patch-Patches}

-- A branch at the place `at` to the DIF instruction `dif_target`, whose code is at `goes`.
pub record Jump : Type 0 where
  pub at : ℕ
  pub dif_target : ℕ
  pub goes : ℕ

abbrev pub pending_of : List Jump → List (ℕ × ℕ)
pending_of = map (λ j. (j.at * 8, j.dif_target))

abbrev pub IsJump : List ℕ → Bytes → Jump → Type 0
IsJump offsets body j =
    (get offsets j.dif_target ≡ some (j.goes * 8))
    × IsNear j.at j.goes
    × (j.at * 8 + 8 ≤ length body)

abbrev pub AreApart : List Jump → Type 0
AreApart [] = Unit {0}
AreApart (j ∷ js) = All (λ (i : Jump). j.at ≢ i.at) js × AreApart js

abbrev pub Settled : List Jump → Bytes → Bytes → Type 0
Settled js body body' =
    All (λ (j : Jump). target_of j.at (fields_at body' j.at) ≡ pos j.goes) js
    × ((k : ℕ) → All (λ (j : Jump). k ≢ j.at) js → fields_at body' k ≡ fields_at body k)

abbrev pub Settles : List Jump → Bytes → Outcome LoweringError Bytes → Type 0
Settles js body (ok body') = Settled js body body'
Settles js body (err e) = ⊥
Settles js body panic = ⊥

-- The rest of the loop after one branch.
abbrev after : List ℕ → List (ℕ × ℕ) → Outcome LoweringError Bytes → Outcome LoweringError Bytes
after offsets pending (ok body) = fixup_each offsets pending body
after offsets pending (err e) = err e
after offsets pending panic = panic

fixup_each-after :
    (offsets : List ℕ) (b : ℕ × ℕ) (pending : List (ℕ × ℕ)) (body : Bytes)
    → fixup_each offsets (b ∷ pending) body ≡ after offsets pending (fixup_branch offsets b body)
unfolding fixup_each
fixup_each-after offsets b pending body = same_after (fixup_branch offsets b body)
  where
    same_after :
        (o : Outcome LoweringError Bytes)
        → elim o [ ok body' ↦ fixup_each offsets pending body' | err e ↦ err e | panic ↦ panic ]
          ≡ after offsets pending o
    same_after (ok body') = refl
    same_after (err e) = refl
    same_after panic = refl

found :
    (offsets : List ℕ) (j : Jump) (body : Bytes)
    → IsJump offsets body j
    → Patches j.at j.goes body (fixup_branch offsets (j.at * 8, j.dif_target) body)
unfolding fixup_branch
found offsets j body (target, near, room) =
    rw (target, fixup_branch) (patch-Patches j.at j.goes body near room)

jumps_stay :
    (offsets : List ℕ) (body body' : Bytes) (js : List Jump)
    → length body' ≡ length body
    → All (IsJump offsets body) js
    → All (IsJump offsets body') js
jumps_stay offsets body body' [] e h = tt
jumps_stay offsets body body' (j ∷ js) e ((target, near, room), hs) =
    ((target, near, omega arith), jumps_stay offsets body body' js e hs)

after-Settles :
    (offsets : List ℕ) (j : Jump) (js : List Jump) (body : Bytes) (o : Outcome LoweringError Bytes)
    → Patches j.at j.goes body o
    → All (λ (i : Jump). j.at ≢ i.at) js
    → ((body' : Bytes)
        → length body' ≡ length body
        → Settles js body' (fixup_each offsets (pending_of js) body'))
    → Settles (j ∷ js) body (after offsets (pending_of js) o)
after-Settles offsets j js body (err e) h apart later = h
after-Settles offsets j js body panic h apart later = h
after-Settles offsets j js body (ok body') h apart later =
    extended (fixup_each offsets (pending_of js) body') (later body' h.size)
  where
    extended : (o : Outcome LoweringError Bytes) → Settles js body' o → Settles (j ∷ js) body o
    extended (err e) s = s
    extended panic s = s
    extended (ok final) (targets, stay) = (
      (ap (λ i. target_of j.at i) (stay j.at apart) ∙ h.target, targets),
      λ k ne. stay k ne.1 ∙ h.others k ne.0,
    )

fixup_each-Settles :
    (offsets : List ℕ) (js : List Jump) (body : Bytes)
    → All (IsJump offsets body) js
    → AreApart js
    → Settles js body (fixup_each offsets (pending_of js) body)
unfolding fixup_each
fixup_each-Settles offsets [] body h apart = (tt, λ k ne. refl)
fixup_each-Settles offsets (j ∷ js) body (h, hs) (apart, aparts) =
    subst (λ o. Settles (j ∷ js) body o)
      (sym (fixup_each-after offsets (j.at * 8, j.dif_target) (pending_of js) body))
      (after-Settles offsets j js body (fixup_branch offsets (j.at * 8, j.dif_target) body)
        (found offsets j body h) apart
        (λ body' e.
          fixup_each-Settles offsets js body' (jumps_stay offsets body body' js e hs) aparts))

abbrev pub Lands : List Jump → LowerState → Outcome LoweringError LowerState → Type 0
Lands js state (ok state') = Settled js state.body state'.body
Lands js state (err e) = ⊥
Lands js state panic = ⊥

-- When the pending branches stand at places of the body, no two at one, and each goes to a DIF
-- instruction whose place is recorded and within an i16 of the branch, `fixup_branches` succeeds:
-- each branch goes to the recorded place, and every other instruction is as it was.
pub fixup_branches-Lands :
    (state : LowerState) (js : List Jump)
    → state.pending_branches ≡ pending_of js
    → All (IsJump state.insn_offsets state.body) js
    → AreApart js
    → Lands js state (fixup_branches state)
unfolding fixup_branches
fixup_branches-Lands state js e h apart =
    landed (fixup_each state.insn_offsets state.pending_branches state.body) (
      subst (λ ps. Settles js state.body (fixup_each state.insn_offsets ps state.body)) (sym e)
        (fixup_each-Settles state.insn_offsets js state.body h apart))
  where
    landed :
        (o : Outcome LoweringError Bytes)
        → Settles js state.body o
        → Lands js state
            (elim o [ ok body ↦ ok (record state { body = body }) | err e ↦ err e | panic ↦ panic ])
    landed (ok body) s = s
    landed (err x) s = s
    landed panic s = s
