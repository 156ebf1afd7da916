-- ===== src/Lower/Action.antt =====
-- action.rs: the actions of an ECB's chain.
use project_bifrost.Base.{ℕ, Bool, true, false, ◌&&◌, Bytes, length, ltb, leb, ◌==◌, if◌then◌else◌}
use project_bifrost.Lower.Error.{
  Result, ok, err, LowerError, truncated_dif, unknown_action_kind, ◌>>=◌,
}
use project_bifrost.Lower.Dof.{read_le}

pub data ActionKind : Type 0 where
  no_action : ActionKind
  dif_expr : ActionKind
  printf : ActionKind
  printa : ActionKind
  stack : ActionKind
  u_stack : ActionKind
  trace_mem : ActionKind
  printf_arg : ActionKind
  discard : ActionKind
  commit : ActionKind
  speculate : ActionKind
  exit : ActionKind
  raise : ActionKind
  stop : ActionKind
  chill : ActionKind
  panic : ActionKind
  breakpoint : ActionKind
  u_sym : ActionKind
  sym : ActionKind
  agg_sentinel : ActionKind
  other : ActionKind

unfoldable pub action_kind_from_u32 : ℕ → Result LowerError ActionKind
action_kind_from_u32 v =
    if v == 0x00
    then ok no_action
    else if v == 0x01
    then ok dif_expr
    else if v == 0x02
    then ok printf
    else if v == 0x03
    then ok printa
    else if v == 0x04
    then ok stack
    else if v == 0x05
    then ok u_stack
    else if v == 0x06
    then ok trace_mem
    else if v == 0x07
    then ok printf_arg
    else if v == 0x20
    then ok discard
    else if v == 0x21
    then ok commit
    else if v == 0x22
    then ok speculate
    else if v == 0x30
    then ok exit
    else if v == 0x31
    then ok raise
    else if v == 0x32
    then ok stop
    else if v == 0x33
    then ok chill
    else if v == 0x34
    then ok panic
    else if v == 0x35
    then ok breakpoint
    else if v == 0x0600
    then ok u_sym
    else if v == 0x0601
    then ok sym
    else if leb 0x0700 v && leb v 0x07ff
    then ok agg_sentinel
    else err (unknown_action_kind v)

unfoldable pub is_destructive : ActionKind → Bool
is_destructive raise = true
is_destructive stop = true
is_destructive chill = true
is_destructive panic = true
is_destructive breakpoint = true
is_destructive k = false

-- `matches!(kind, ActionKind::AggSentinel)`
unfoldable pub is_agg_sentinel : ActionKind → Bool
is_agg_sentinel agg_sentinel = true
is_agg_sentinel k = false

pub record ActionDescriptor : Type 0 where
  pub kind : ActionKind
  pub kind_raw : ℕ
  pub difo_section : ℕ
  pub arg : ℕ
  pub uarg : ℕ

abbrev pub describe : Bytes → ℕ → ActionKind → ActionDescriptor
describe raw kind_raw kind = record {
  kind = kind;
  kind_raw = kind_raw;
  difo_section = read_le 4 raw 0;
  arg = read_le 8 raw 16;
  uarg = read_le 8 raw 24;
}

unfoldable pub parse_action : Bytes → Result LowerError ActionDescriptor
parse_action raw =
    let kind_raw = read_le 4 raw 8 in
    if ltb (length raw) 32
    then err truncated_dif
    else action_kind_from_u32 kind_raw >>= λ kind. ok (describe raw kind_raw kind)
