-- ===== src/Wire/Error.antt =====
-- `WireError` of host/bifrost-wire/src/codec.rs. The `at` labels are kept as texts.
use project_bifrost.Base.{ℕ, String, Bytes}

pub data WireError : Type 0 where
  -- need, have, at
  truncated : ℕ → ℕ → String → WireError
  unsupported_magic : Bytes → WireError
  path_too_long : ℕ → WireError
  basename_out_of_range : ℕ → WireError
  symbol_out_of_range : ℕ → WireError
  provider_out_of_range : ℕ → WireError
  probe_out_of_range : ℕ → WireError
  kfunc_name_out_of_range : ℕ → WireError
  bad_probe_type : ℕ → WireError
  -- limit, got, at
  too_large : ℕ → ℕ → String → WireError
