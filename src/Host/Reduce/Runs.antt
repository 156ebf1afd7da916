-- ===== src/Host/Reduce/Runs.antt =====
-- Two targets that sum, one of them twice and one below zero, and the theorem at a concrete input.
use project_bifrost.Base.{◌≡◌, refl, arith, List, [], ◌∷◌, none, pos, negsuc, ◌+ℤ◌, bytes_eq}
use project_bifrost.Host.Reduce.{
  scalar, histogram, count_kind, sum_kind, quantize, merge_cell, fold_value, contribute, put_bucket,
  collect, add_buckets,
}
use project_bifrost.Host.Reduce.Totals.{
  Contribution, Totals, total, last_of, row_at, merge_all, merge_all-Totals,
}

abbrev linux : Contribution
linux = record { target_id = 108 ∷ []; amount = pos 5 }

abbrev others : List Contribution
others =
    record { target_id = 102 ∷ []; amount = negsuc 7 }
    ∷ record { target_id = 108 ∷ []; amount = pos 9 }
    ∷ []

merge_all-Totals_example :
    Totals sum_kind
      (total (linux ∷ others))
      (λ t. last_of t none (linux ∷ others))
      (row_at (114 ∷ [], 120 ∷ []) (merge_all (114 ∷ []) (120 ∷ []) sum_kind (linux ∷ others) []))
unfolding ◌+ℤ◌
merge_all-Totals_example =
    merge_all-Totals (114 ∷ []) (120 ∷ []) sum_kind tt linux others
      ((omega arith, omega arith), ((omega arith, omega arith), ((omega arith, omega arith), tt)))

-- The count of a target that sends 5 and then 9 in all is 14.
counted_twice :
    (merge_cell (108 ∷ []) count_kind (scalar (pos 9)) (
      merge_cell
        (108 ∷ [])
        count_kind
        (scalar (pos 5))
        (record { kind = count_kind; value = scalar (pos 0); contributors = [] })))
    ≡ record {
      kind = count_kind;
      value = scalar (pos 14);
      contributors = (108 ∷ [], scalar (pos 9)) ∷ [];
    }
unfolding merge_cell fold_value contribute bytes_eq ◌+ℤ◌
counted_twice = refl

buckets_merged :
    fold_value quantize
      (histogram ((pos 1, 2) ∷ (pos 4, 1) ∷ []))
      (histogram ((pos 4, 5) ∷ (pos 2, 7) ∷ []))
    ≡ histogram ((pos 1, 2) ∷ (pos 2, 7) ∷ (pos 4, 6) ∷ [])
unfolding fold_value add_buckets collect put_bucket
buckets_merged = refl
