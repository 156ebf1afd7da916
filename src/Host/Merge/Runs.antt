-- ===== src/Host/Merge/Runs.antt =====
-- Two sources with three records, and the theorems at concrete inputs.
use project_bifrost.Base.{ℕ, ◌≡◌, refl, arith, [], ◌∷◌, some, true, bytes_eq}
use project_bifrost.Host.Merge.{
  TaggedRecord, MergedRing, new_ring, push, push_by_id, update_at, position, drain_eligible,
  drain_until, pick_from, better, precedes, bytes_lt, pop_front, pending,
}
use project_bifrost.Host.Merge.Drain.{Delivers, drain_eligible-Delivers}
use project_bifrost.Host.Merge.Order.{
  EachAscending, IsAscending, Separates, drain_eligible-Separates,
}

abbrev at_time : ℕ → TaggedRecord
at_time t = record { target_id = 97 ∷ []; gns = t; source_seq = t; payload = t ∷ [] }

abbrev of_other : ℕ → TaggedRecord
of_other t = record { target_id = 98 ∷ []; gns = t; source_seq = t; payload = t ∷ [] }

abbrev ring : MergedRing
ring = record {
  sources =
      record { target_id = 97 ∷ []; queue = at_time 100 ∷ at_time 220 ∷ [] }
      ∷ record { target_id = 98 ∷ []; queue = of_other 110 ∷ [] }
      ∷ [];
  lookback_ns = 50;
}

ring-EachAscending : EachAscending ring.sources
unfolding EachAscending IsAscending
ring-EachAscending = (((omega arith, tt), (tt, tt)), ((tt, tt), tt))

drain_eligible-Delivers_example : Delivers 160 ring.sources (drain_eligible 210 ring)
drain_eligible-Delivers_example = drain_eligible-Delivers 210 ring

drain_eligible-Separates_example : Separates 160 (drain_eligible 210 ring)
drain_eligible-Separates_example = drain_eligible-Separates 210 ring ring-EachAscending

two_out :
    drain_eligible 210 ring
    ≡ some (
      at_time 100 ∷ of_other 110 ∷ [],
      record { target_id = 97 ∷ []; queue = at_time 220 ∷ [] }
          ∷ record { target_id = 98 ∷ []; queue = [] }
          ∷ [],
    )
unfolding drain_eligible drain_until pick_from better precedes bytes_lt pop_front pending
two_out = refl

pushed_by_id :
    push_by_id (98 ∷ []) 7 1 (1 ∷ []) (new_ring ((97 ∷ []) ∷ (98 ∷ []) ∷ []) 5)
    ≡ some (
      true,
      record {
        sources =
            record { target_id = 97 ∷ []; queue = [] }
            ∷ record {
              target_id = 98 ∷ [];
              queue =
                  record { target_id = 98 ∷ []; gns = 7; source_seq = 1; payload = 1 ∷ [] } ∷ [];
            }
            ∷ [];
        lookback_ns = 5;
      },
    )
unfolding push_by_id push update_at position new_ring bytes_eq
pushed_by_id = refl
