-- ===== src/Lower/Agg.antt =====
-- agg.rs: the aggregation operators.
use project_bifrost.Base.{ℕ, ◌==◌, if◌then◌else◌}
use project_bifrost.Lower.Error.{Result, ok, err, LowerError, unknown_agg_kind}

pub data AggKind : Type 0 where
  count : AggKind
  min : AggKind
  max : AggKind
  avg : AggKind
  sum : AggKind
  std_dev : AggKind
  quantize : AggKind
  l_quantize : AggKind
  ll_quantize : AggKind

unfoldable pub agg_kind_from_u32 : ℕ → Result LowerError AggKind
agg_kind_from_u32 v =
    if v == 0x0101
    then ok count
    else if v == 0x0102
    then ok min
    else if v == 0x0103
    then ok max
    else if v == 0x0104
    then ok avg
    else if v == 0x0105
    then ok sum
    else if v == 0x0106
    then ok std_dev
    else if v == 0x0107
    then ok quantize
    else if v == 0x0108
    then ok l_quantize
    else if v == 0x0109
    then ok ll_quantize
    else err (unknown_agg_kind v)

unfoldable pub default_bucket_count : AggKind → ℕ
default_bucket_count count = 0
default_bucket_count min = 0
default_bucket_count max = 0
default_bucket_count avg = 0
default_bucket_count sum = 0
default_bucket_count std_dev = 0
default_bucket_count quantize = 129
default_bucket_count l_quantize = 0
default_bucket_count ll_quantize = 0
