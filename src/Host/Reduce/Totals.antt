-- ===== src/Host/Reduce/Totals.antt =====
-- What a row holds after its targets' contributions.
use project_bifrost.Base.{
  ◌≡◌, inl, inr, refl, arith, sym, ap, ◌∙◌, subst, List, [], ◌∷◌, Bytes, Option, none, some, Bool,
  true, false, Bool-cases, bytes_eq, bytes_eq_refl, bytes_eq→eq, if◌then◌else◌, ℤ, pos, negsuc,
  ◌+ℤ◌, ◌≤ℤ◌,
}
use project_bifrost.Host.Reduce.{
  CrossTargetAggValue, scalar, CrossTargetAggKind, count_kind, sum_kind, CrossTargetAggCell, Rows,
  as_i64, i64_min, i64_max, fold_value, contribute, merge_cell, same_kind, same_key, merge,
  empty_value,
}

-- A scalar that a target sends.
pub record Contribution : Type 0 where
  pub target_id : Bytes
  pub amount : ℤ

abbrev pub value_of : Contribution → CrossTargetAggValue
value_of c = scalar c.amount

-- The sum of the amounts, on top of `sum`.
abbrev pub total_from : ℤ → List Contribution → ℤ
total_from sum [] = sum
total_from sum (c ∷ cs) = total_from (sum +ℤ c.amount) cs

abbrev pub total : List Contribution → ℤ
total cs = total_from (pos 0) cs

abbrev pub IsI64 : ℤ → Type 0
IsI64 z = (i64_min ≤ℤ z) × (z ≤ℤ i64_max)

-- The sum on top of `sum` is an i64 after every amount.
abbrev pub StaysI64 : ℤ → List Contribution → Type 0
StaysI64 sum [] = Unit {0}
StaysI64 sum (c ∷ cs) = IsI64 (sum +ℤ c.amount) × StaysI64 (sum +ℤ c.amount) cs

-- The last amount that the target `t` sent, or what was there before.
abbrev pub last_of :
    Bytes → Option CrossTargetAggValue → List Contribution → Option CrossTargetAggValue
last_of t before [] = before
last_of t before (c ∷ cs) =
    last_of t (if bytes_eq c.target_id t then some (value_of c) else before) cs

unfoldable pub contributor : Bytes → List (Bytes × CrossTargetAggValue) → Option CrossTargetAggValue
contributor t [] = none
contributor t ((u, v) ∷ rest) =
    let later = contributor t rest in if bytes_eq u t then some v else later

unfoldable pub row_at : Bytes × Bytes → Rows → Option CrossTargetAggCell
row_at k [] = none
row_at k ((k', cell) ∷ rows) =
    let later = row_at k rows in if same_key k' k then some cell else later

abbrev pub merge_all : Bytes → Bytes → CrossTargetAggKind → List Contribution → Rows → Rows
merge_all name key kind [] rows = rows
merge_all name key kind (c ∷ cs) rows =
    merge_all name key kind cs (merge c.target_id name key kind (value_of c) rows)

-- The kinds that add.
abbrev pub IsAdditive : CrossTargetAggKind → Type 0
IsAdditive count_kind = Unit {0}
IsAdditive sum_kind = Unit {0}
IsAdditive _ = ⊥

other_contributor :
    (t u u' : Bytes) (v v' : CrossTargetAggValue) (rest : Option CrossTargetAggValue)
    → bytes_eq u' u ≡ false
    → (if bytes_eq u' t then some v' else (if bytes_eq u t then some v else rest))
      ≡ (if bytes_eq u t then some v else (if bytes_eq u' t then some v' else rest))
other_contributor t u u' v v' rest ne = elim (Bool-cases (bytes_eq u' t)) [
  | inl a ↦ elim (Bool-cases (bytes_eq u t)) [
    | inl b ↦ absurd (both (bytes_eq→eq u' t a) (bytes_eq→eq u t b))
    | inr b ↦ rw (a, b) refl
  ]
  | inr a ↦ rw a refl
]
  where
    both : u' ≡ t → u ≡ t → ⊥
    both p q = cc (sym (subst (λ w. bytes_eq w u ≡ true) (q ∙ sym p) (bytes_eq_refl u)) ∙ ne)

contributor-contribute :
    (t u : Bytes) (v : CrossTargetAggValue) (l : List (Bytes × CrossTargetAggValue))
    → contributor t (contribute u v l) ≡ (if bytes_eq u t then some v else contributor t l)
unfolding contributor contribute
contributor-contribute t u v [] = refl
contributor-contribute t u v ((u', v') ∷ rest) = elim (Bool-cases (bytes_eq u' u)) [
  | inl a ↦ rw a (
      subst
        (λ w. (if bytes_eq u' t then some v else contributor t rest) ≡ (
          if bytes_eq w t then some v else (if bytes_eq u' t then some v' else contributor t rest)))
        (bytes_eq→eq u' u a) (replaced (bytes_eq u' t)))
  | inr a ↦ rw a (
      ap (λ o. if bytes_eq u' t then some v' else o) (contributor-contribute t u v rest)
      ∙ other_contributor t u u' v v' (contributor t rest) a)
]
  where
    replaced :
        (b : Bool)
        → (if b then some v else contributor t rest)
          ≡ (if b then some v else (if b then some v' else contributor t rest))
    replaced true = refl
    replaced false = refl

-- A cell that holds a total and, for each target, what `before` says.
pub record IsTotal (kind : CrossTargetAggKind) (sum : ℤ)
    (before : Bytes → Option CrossTargetAggValue) (cell : CrossTargetAggCell) : Type 0 where
  pub of_kind : cell.kind ≡ kind
  pub adds_up : cell.value ≡ scalar sum
  pub by_target : (t : Bytes) → contributor t cell.contributors ≡ before t

abbrev said :
    Contribution → (Bytes → Option CrossTargetAggValue) → Bytes → Option CrossTargetAggValue
said c before t = if bytes_eq c.target_id t then some (value_of c) else before t

same_kind_refl : (kind : CrossTargetAggKind) → same_kind kind kind ≡ true
same_kind_refl kind = ground arith

as_i64_same : (z : ℤ) → IsI64 z → as_i64 z ≡ z
as_i64_same (pos n) h = ground arith
as_i64_same (negsuc n) h = ground arith

fold_value-additive :
    (kind : CrossTargetAggKind) (a b : ℤ)
    → IsAdditive kind
    → IsI64 (a +ℤ b)
    → fold_value kind (scalar a) (scalar b) ≡ scalar (a +ℤ b)
unfolding fold_value
fold_value-additive count_kind a b h small = ap scalar (as_i64_same (a +ℤ b) small)
fold_value-additive sum_kind a b h small = ap scalar (as_i64_same (a +ℤ b) small)
fold_value-additive _ a b h small = absurd h

merge_cell-IsTotal :
    (kind : CrossTargetAggKind) (sum : ℤ) (before : Bytes → Option CrossTargetAggValue)
    (cell : CrossTargetAggCell) (c : Contribution)
    → IsAdditive kind
    → IsI64 (sum +ℤ c.amount)
    → IsTotal kind sum before cell
    → IsTotal kind (sum +ℤ c.amount) (said c before) (merge_cell c.target_id kind (value_of c) cell)
unfolding merge_cell
merge_cell-IsTotal kind sum before cell c add small h =
    rw (ap (λ k. same_kind k kind) h.of_kind ∙ same_kind_refl kind) (record {
      of_kind = h.of_kind;
      adds_up =
          ap (λ v. fold_value kind v (value_of c)) h.adds_up
          ∙ fold_value-additive kind sum c.amount add small;
      by_target = λ t.
          contributor-contribute t c.target_id (value_of c) cell.contributors
          ∙ ap (λ o. if bytes_eq c.target_id t then some (value_of c) else o) (h.by_target t);
    })

-- The row of the key is a total, whatever it was called with.
abbrev pub Totals :
    CrossTargetAggKind
    → ℤ
    → (Bytes → Option CrossTargetAggValue)
    → Option CrossTargetAggCell
    → Type 0
Totals kind sum before none = ⊥
Totals kind sum before (some cell) = IsTotal kind sum before cell

module _ (name key : Bytes) (kind : CrossTargetAggKind) (add : IsAdditive kind) where
  same_key_refl : same_key (name, key) (name, key) ≡ true
  same_key_refl = rw (bytes_eq_refl name, bytes_eq_refl key) refl

  -- One row that the contributions all go to.
  one_row :
      (cs : List Contribution) (sum : ℤ) (before : Bytes → Option CrossTargetAggValue)
      (cell : CrossTargetAggCell)
      → StaysI64 sum cs
      → IsTotal kind sum before cell
      → Totals kind
          (total_from sum cs)
          (λ t. last_of t (before t) cs)
          (row_at (name, key) (merge_all name key kind cs (((name, key), cell) ∷ [])))
  unfolding row_at merge
  one_row [] sum before cell stays h = rw same_key_refl h
  one_row (c ∷ cs) sum before cell (small, stays) h = rw same_key_refl (
      one_row cs (sum +ℤ c.amount) (said c before) (merge_cell c.target_id kind (value_of c) cell)
        stays (merge_cell-IsTotal kind sum before cell c add small h))

  empty_cell : CrossTargetAggCell
  empty_cell = record { kind = kind; value = empty_value kind; contributors = [] }

  -- Contributions of one additive kind, positive or negative, to one key of an empty reducer, whose
  -- running total is an i64 after each of them, make a row of that kind. Its value is the sum of
  -- all of them, the earlier ones of a target as well as its last, while its contributors hold each
  -- target's last one only.
  pub merge_all-Totals :
      (c : Contribution) (cs : List Contribution)
      → StaysI64 (pos 0) (c ∷ cs)
      → Totals kind
          (total (c ∷ cs))
          (λ t. last_of t none (c ∷ cs))
          (row_at (name, key) (merge_all name key kind (c ∷ cs) []))
  unfolding merge empty_cell contributor
  merge_all-Totals c cs (small, stays) =
      one_row cs (pos 0 +ℤ c.amount) (said c (λ t. none))
        (merge_cell c.target_id kind (value_of c) empty_cell) stays
        (merge_cell-IsTotal kind (pos 0) (λ t. none) empty_cell c add small
          (record { of_kind = refl; adds_up = starts kind add; by_target = λ t. refl }))
    where
      starts : (k : CrossTargetAggKind) → IsAdditive k → empty_value k ≡ scalar (pos 0)
      starts count_kind h = refl
      starts sum_kind h = refl
      starts _ h = absurd h
