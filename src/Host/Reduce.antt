-- ===== src/Host/Reduce.antt =====
-- host/bifrost/src/merge.rs: CrossTargetAggReducer, which adds up the targets' aggregations.
-- The maps of rows and of contributors are lists of entries; their order is not read here.
pub mod Totals
mod Runs
use project_bifrost.Base.{
  ℕ, suc, ◌+◌, ◌-◌, ◌*◌, ◌%◌, ◌^◌, List, [], ◌∷◌, Bytes, Option, none, some, Bool, true, false, not,
  ◌&&◌, ◌||◌, bytes_eq, ltb, ◌==◌, if◌then◌else◌, ℤ, pos, negsuc, ◌+ℤ◌, ltb_ℤ, signed,
}

pub data CrossTargetAggValue : Type 0 where
  scalar : ℤ → CrossTargetAggValue
  histogram : List (ℤ × ℕ) → CrossTargetAggValue

pub data CrossTargetAggKind : Type 0 where
  count_kind : CrossTargetAggKind
  sum_kind : CrossTargetAggKind
  min_kind : CrossTargetAggKind
  max_kind : CrossTargetAggKind
  quantize : CrossTargetAggKind
  lquantize : CrossTargetAggKind

pub record CrossTargetAggCell : Type 0 where
  pub kind : CrossTargetAggKind
  pub value : CrossTargetAggValue
  pub contributors : List (Bytes × CrossTargetAggValue)

-- The rows by the aggregation's name and its key.
abbrev pub Rows : Type 0
Rows = List ((Bytes × Bytes) × CrossTargetAggCell)

-- `+` on `i64` wraps, where it does not stop the program.
abbrev pub as_i64 : ℤ → ℤ
as_i64 (pos n) = signed (2 ^ 63) (n % 2 ^ 64)
as_i64 (negsuc n) = signed (2 ^ 63) (2 ^ 64 - 1 - n % 2 ^ 64)

abbrev pub i64_max : ℤ
i64_max = pos (2 ^ 63 - 1)

abbrev pub i64_min : ℤ
i64_min = negsuc (2 ^ 63 - 1)

abbrev pub empty_value : CrossTargetAggKind → CrossTargetAggValue
empty_value count_kind = scalar (pos 0)
empty_value sum_kind = scalar (pos 0)
empty_value min_kind = scalar i64_max
empty_value max_kind = scalar i64_min
empty_value quantize = histogram []
empty_value lquantize = histogram []

abbrev pub kind_number : CrossTargetAggKind → ℕ
kind_number count_kind = 0
kind_number sum_kind = 1
kind_number min_kind = 2
kind_number max_kind = 3
kind_number quantize = 4
kind_number lquantize = 5

abbrev pub same_kind : CrossTargetAggKind → CrossTargetAggKind → Bool
same_kind a b = kind_number a == kind_number b

abbrev pub is_hist : CrossTargetAggKind → Bool
is_hist quantize = true
is_hist lquantize = true
is_hist _ = false

abbrev pub lesser : ℤ → ℤ → ℤ
lesser a b = if ltb_ℤ b a then b else a

abbrev pub greater : ℤ → ℤ → ℤ
greater a b = if ltb_ℤ a b then b else a

-- An entry of the ordered map of buckets, given what becomes of the count that is there.
unfoldable pub put_bucket : (ℕ → ℕ) → ℤ → List (ℤ × ℕ) → List (ℤ × ℕ)
put_bucket f bucket [] = (bucket, f 0) ∷ []
put_bucket f bucket ((b, n) ∷ buckets) =
    let later = put_bucket f bucket buckets in
    if ltb_ℤ bucket b
    then (bucket, f 0) ∷ (b, n) ∷ buckets
    else if ltb_ℤ b bucket
    then (b, n) ∷ later
    else (b, f n) ∷ buckets

-- `collect` into the map: a later entry replaces an earlier one.
unfoldable pub collect : List (ℤ × ℕ) → List (ℤ × ℕ) → List (ℤ × ℕ)
collect [] merged = merged
collect ((b, n) ∷ buckets) merged = collect buckets (put_bucket (λ old. n) b merged)

unfoldable pub add_buckets : List (ℤ × ℕ) → List (ℤ × ℕ) → List (ℤ × ℕ)
add_buckets [] merged = merged
add_buckets ((b, n) ∷ buckets) merged =
    add_buckets buckets (put_bucket (λ old. (old + n) % 2 ^ 64) b merged)

-- The `match` on the kind and the two values; any other combination leaves the row.
unfoldable pub fold_value :
    CrossTargetAggKind → CrossTargetAggValue → CrossTargetAggValue → CrossTargetAggValue
fold_value count_kind (scalar acc) (scalar v) = scalar (as_i64 (acc +ℤ v))
fold_value sum_kind (scalar acc) (scalar v) = scalar (as_i64 (acc +ℤ v))
fold_value min_kind (scalar acc) (scalar v) = scalar (lesser acc v)
fold_value max_kind (scalar acc) (scalar v) = scalar (greater acc v)
fold_value quantize (histogram acc) (histogram v) = histogram (add_buckets v (collect acc []))
fold_value lquantize (histogram acc) (histogram v) = histogram (add_buckets v (collect acc []))
fold_value _ acc v = acc

-- `insert` on the contributors
unfoldable pub contribute :
    Bytes
    → CrossTargetAggValue
    → List (Bytes × CrossTargetAggValue)
    → List (Bytes × CrossTargetAggValue)
contribute target_id value [] = (target_id, value) ∷ []
contribute target_id value ((t, v) ∷ rest) =
    let later = contribute target_id value rest in
    if bytes_eq t target_id then (t, value) ∷ rest else (t, v) ∷ later

-- A cell of another kind takes the incoming histogram over its scalar, and nothing else.
unfoldable pub merge_cell :
    Bytes → CrossTargetAggKind → CrossTargetAggValue → CrossTargetAggCell → CrossTargetAggCell
merge_cell target_id kind value cell =
    if not (same_kind cell.kind kind)
    then (if is_hist kind && not (is_hist cell.kind)
        then record {
          kind = kind;
          value = value;
          contributors = contribute target_id value cell.contributors;
        }
        else record cell { contributors = contribute target_id value cell.contributors })
    else record cell {
      value = fold_value kind cell.value value;
      contributors = contribute target_id value cell.contributors;
    }

abbrev pub same_key : Bytes × Bytes → Bytes × Bytes → Bool
same_key a b = bytes_eq a.0 b.0 && bytes_eq a.1 b.1

unfoldable pub merge :
    Bytes → Bytes → Bytes → CrossTargetAggKind → CrossTargetAggValue → Rows → Rows
merge target_id agg_name key_tuple kind value [] =
    (
      (agg_name, key_tuple),
      merge_cell target_id kind value
          (record { kind = kind; value = empty_value kind; contributors = [] }),
    )
    ∷ []
merge target_id agg_name key_tuple kind value ((k, cell) ∷ rows) =
    let later = merge target_id agg_name key_tuple kind value rows in
    if same_key k (agg_name, key_tuple)
    then (k, merge_cell target_id kind value cell) ∷ rows
    else (k, cell) ∷ later
