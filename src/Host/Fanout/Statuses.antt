-- ===== src/Host/Fanout/Statuses.antt =====
-- What the accumulator of statuses counts.
use project_bifrost.Base.{
  ℕ, suc, ◌+◌, ◌≡◌, refl, arith, List, [], ◌∷◌, ◌++◌, Bytes, ltb, bytes_eq, if◌then◌else◌,
  Bool-cases, inl, inr,
}
use project_bifrost.Host.Fanout.{
  EcbVerdict, accepted, rejected, zero_match, ByGuest, record_status, is_accepted, accepted_in,
  accepted_total, any_in, any_accepted,
}

-- A status as a guest reports it.
pub record Status : Type 0 where
  pub guest_name : Bytes
  pub ecb_index : ℕ
  pub verdict : EcbVerdict

-- The accumulator after a list of reports, the first first.
abbrev pub record_all : List Status → ByGuest → ByGuest
record_all [] acc = acc
record_all (s ∷ ss) acc = record_all ss (record_status s.guest_name s.ecb_index s.verdict acc)

-- How many of the reports accept.
abbrev pub accepting : List Status → ℕ
accepting [] = 0
accepting (s ∷ ss) = elim s.verdict [
  | accepted ↦ suc (accepting ss)
  | rejected reason ↦ accepting ss
  | zero_match ↦ accepting ss
]

accepting-head :
    (s : Status) (ss : List Status)
    → accepting (s ∷ ss) ≡ (if is_accepted s.verdict then 1 else 0) + accepting ss
accepting-head s ss = at_verdict s.verdict
  where
    at_verdict :
        (v : EcbVerdict)
        → (elim v [
          | accepted ↦ suc (accepting ss)
          | rejected reason ↦ accepting ss
          | zero_match ↦ accepting ss
        ])
          ≡ (if is_accepted v then 1 else 0) + accepting ss
    at_verdict accepted = omega arith
    at_verdict (rejected reason) = omega arith
    at_verdict zero_match = omega arith

accepted_in-append :
    (xs : List (ℕ × EcbVerdict)) (i : ℕ) (v : EcbVerdict)
    → accepted_in (xs ++ (i, v) ∷ []) ≡ accepted_in xs + (if is_accepted v then 1 else 0)
unfolding accepted_in
accepted_in-append [] i v = omega arith
accepted_in-append ((j, w) ∷ xs) i v = omega (arith, accepted_in-append xs i v)

accepted_total-record_status :
    (name : Bytes) (i : ℕ) (v : EcbVerdict) (acc : ByGuest)
    → accepted_total (record_status name i v acc)
      ≡ accepted_total acc + (if is_accepted v then 1 else 0)
unfolding accepted_total record_status accepted_in
accepted_total-record_status name i v [] = omega arith
accepted_total-record_status name i v ((n, xs) ∷ rest) = elim (Bool-cases (bytes_eq n name)) [
  | inl a ↦ rw a (omega (arith, accepted_in-append xs i v))
  | inr a ↦ rw a (omega (arith, accepted_total-record_status name i v rest))
]

any_in-accepted_in : (xs : List (ℕ × EcbVerdict)) → any_in xs ≡ ltb 0 (accepted_in xs)
unfolding any_in accepted_in
any_in-accepted_in [] = refl
any_in-accepted_in ((j, w) ∷ xs) = ground (arith, any_in-accepted_in xs)

any_accepted-accepted_total : (acc : ByGuest) → any_accepted acc ≡ ltb 0 (accepted_total acc)
unfolding any_accepted accepted_total
any_accepted-accepted_total [] = refl
any_accepted-accepted_total ((n, xs) ∷ rest) =
    ground (arith, any_in-accepted_in xs, any_accepted-accepted_total rest)

-- After any reports the accumulator's total is the total of before and the number of reports that
-- accept, whatever guests they come from and also when they repeat a guest's ECB, and
-- `any_accepted` tells whether the total is above 0.
pub record_all-accepted_total :
    (reports : List Status) (acc : ByGuest)
    → (accepted_total (record_all reports acc) ≡ accepted_total acc + accepting reports)
      × (any_accepted (record_all reports acc) ≡ ltb 0 (accepted_total acc + accepting reports))
record_all-accepted_total [] acc = ground (arith, any_accepted-accepted_total acc)
record_all-accepted_total (s ∷ ss) acc = ground (
  arith,
  accepting-head s ss,
  record_all-accepted_total ss (record_status s.guest_name s.ecb_index s.verdict acc),
  accepted_total-record_status s.guest_name s.ecb_index s.verdict acc,
)
