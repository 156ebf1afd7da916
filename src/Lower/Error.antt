-- ===== src/Lower/Error.antt =====
-- `LowerError` of crates/bifrost-dtrace-lower/src/lib.rs, and Rust's `Result`.
use project_bifrost.Base.{ℕ, ◌≢◌}

pub data Result (E : Type 0) (A : Type 0) : Type 0 where
  ok : A → Result E A
  err : E → Result E A

-- Of adapter.rs: it stands here because `LowerError` can carry one.
pub data RejectReason : Type 0 where
  zero_match : RejectReason
  no_provider : RejectReason
  not_implemented : RejectReason
  destructive_disabled : RejectReason
  agg_kind_unsupported : RejectReason
  resource_exhausted : RejectReason
  lowering_failed : RejectReason

pub data LowerError : Type 0 where
  bad_magic : LowerError
  short_header : LowerError
  -- section_index, section_offset, section_size, blob_len
  section_out_of_bounds : ℕ → ℕ → ℕ → ℕ → LowerError
  -- section_index, entsize, size
  section_entsize_mismatch : ℕ → ℕ → ℕ → LowerError
  -- referenced, section_count
  section_index_out_of_range : ℕ → ℕ → LowerError
  truncated_dif : LowerError
  unknown_dif_op : ℕ → LowerError
  unknown_action_kind : ℕ → LowerError
  unknown_agg_kind : ℕ → LowerError
  adapter_rejected : RejectReason → LowerError
  capacity_exceeded : ℕ → LowerError

infixl 5 ◌>>=◌
-- `m?` and what follows.
abbrev pub ◌>>=◌ : {E A B : Type 0} → Result E A → (A → Result E B) → Result E B
ok a >>= f = f a
err e >>= f = err e

pub err-ok : {E B : Type 0} {e : E} {b : B} → err e ≢ ok b
err-ok h = cc
