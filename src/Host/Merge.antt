-- ===== src/Host/Merge.antt =====
-- host/bifrost/src/merge.rs: the merge of the targets' records into one stream.
-- A `String` is its UTF-8 bytes, which is also how Rust orders it.
pub mod Pick
pub mod Order
pub mod Drain
mod Runs
use project_bifrost.Base.{
  ℕ, zero, suc, ◌+◌, ◌-◌, ◌≤◌, List, [], ◌∷◌, ◌++◌, Bytes, Option, none, some, length, map, Bool,
  true, false, ◌&&◌, ◌||◌, ltb, ◌==◌, if◌then◌else◌, bytes_eq,
}

pub record TaggedRecord : Type 0 where
  pub target_id : Bytes
  pub gns : ℕ
  pub source_seq : ℕ
  pub payload : Bytes

abbrev pub default_lookback_ns : ℕ
default_lookback_ns = 50000000

pub record SourceState : Type 0 where
  pub target_id : Bytes
  pub queue : List TaggedRecord

pub record MergedRing : Type 0 where
  pub sources : List SourceState
  pub lookback_ns : ℕ

unfoldable pub new_ring : List Bytes → ℕ → MergedRing
new_ring target_ids lookback_ns = record {
  sources = map (λ id. record { target_id = id; queue = [] }) target_ids;
  lookback_ns = lookback_ns;
}

unfoldable pub with_default_lookback : List Bytes → MergedRing
with_default_lookback target_ids = new_ring target_ids default_lookback_ns

abbrev pub pushed : ℕ → ℕ → Bytes → SourceState → SourceState
pushed gns source_seq payload src = record src {
  queue =
      src.queue
      ++ record { target_id = src.target_id; gns = gns; source_seq = source_seq; payload = payload }
        ∷ [];
}

-- The element at an index is replaced; `none` out of range.
unfoldable pub update_at {ℓ} : {A : Type ℓ} → ℕ → (A → A) → List A → Option (List A)
update_at k f [] = none
update_at zero f (x ∷ xs) = some (f x ∷ xs)
update_at (suc k) f (x ∷ xs) = elim (update_at k f xs) [ none ↦ none | some ys ↦ some (x ∷ ys) ]

-- `none` is the panic.
unfoldable pub push : ℕ → ℕ → ℕ → Bytes → MergedRing → Option MergedRing
push source_idx gns source_seq payload ring =
    elim (update_at source_idx (pushed gns source_seq payload) ring.sources) [
      | none ↦ none
      | some sources ↦ some (record ring { sources = sources })
    ]

unfoldable pub position : Bytes → List SourceState → Option ℕ
position target_id [] = none
position target_id (s ∷ ss) =
    let rest = position target_id ss in
    if bytes_eq s.target_id target_id
    then some 0
    else elim rest [ none ↦ none | some k ↦ some (suc k) ]

unfoldable pub push_by_id : Bytes → ℕ → ℕ → Bytes → MergedRing → Option (Bool × MergedRing)
push_by_id target_id gns source_seq payload ring = elim (position target_id ring.sources) [
  | none ↦ some (false, ring)
  | some idx ↦ elim (push idx gns source_seq payload ring) [ none ↦ none | some r ↦ some (true, r) ]
]

unfoldable pub bytes_lt : Bytes → Bytes → Bool
bytes_lt [] [] = false
bytes_lt [] (y ∷ ys) = true
bytes_lt (x ∷ xs) [] = false
bytes_lt (x ∷ xs) (y ∷ ys) = ltb x y || (x == y && bytes_lt xs ys)

-- `<` on the triples (gns, target_id, source_seq)
unfoldable pub precedes : TaggedRecord → TaggedRecord → Bool
precedes a b =
    ltb a.gns b.gns
    || (a.gns == b.gns
        && (bytes_lt a.target_id b.target_id
            || (bytes_eq a.target_id b.target_id && ltb a.source_seq b.source_seq)))

-- The best head so far, with the index of its source.
abbrev pub Best : Type 0
Best = Option (ℕ × TaggedRecord)

unfoldable pub better : ℕ → Best → List TaggedRecord → Best
better i best [] = best
better i none (head ∷ queue) = some (i, head)
better i (some (b, bhead)) (head ∷ queue) =
    if precedes head bhead then some (i, head) else some (b, bhead)

unfoldable pub pick_from : ℕ → Best → List SourceState → Best
pick_from i best [] = best
pick_from i best (src ∷ sources) = pick_from (suc i) (better i best src.queue) sources

abbrev pub tail_of : List TaggedRecord → List TaggedRecord
tail_of [] = []
tail_of (x ∷ xs) = xs

-- `pop_front` on one source's queue
unfoldable pub pop_front : ℕ → List SourceState → List SourceState
pop_front k [] = []
pop_front zero (s ∷ ss) = record s { queue = tail_of s.queue } ∷ ss
pop_front (suc k) (s ∷ ss) = s ∷ pop_front k ss

abbrev pub Drained : Type 0
Drained = Option (List TaggedRecord × List SourceState)

abbrev pub emit : TaggedRecord → Drained → Drained
emit r none = none
emit r (some (out, sources)) = some (r ∷ out, sources)

-- The outer loop; `none` when the rounds run out.
unfoldable pub drain_until : ℕ → ℕ → List SourceState → Drained
drain_until cutoff zero sources = none
drain_until cutoff (suc rounds) sources = elim (pick_from 0 none sources) [
  | none ↦ some ([], sources)
  | some best ↦
      if ltb cutoff best.1.gns
      then some ([], sources)
      else emit best.1 (drain_until cutoff rounds (pop_front best.0 sources))
]

unfoldable pub pending : List SourceState → ℕ
pending [] = 0
pending (s ∷ ss) = length s.queue + pending ss

-- `saturating_sub` is the subtraction of ℕ.
unfoldable pub drain_eligible : ℕ → MergedRing → Drained
drain_eligible now_ns ring =
    drain_until (now_ns - ring.lookback_ns) (suc (pending ring.sources)) ring.sources
