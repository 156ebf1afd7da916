-- ===== src/Base/Results.antt =====
-- What a Rust call gives back: a value, an error handed on by `?`, or a panic.

pub data Outcome {ℓ} (E : Type 0) (A : Type ℓ) : Type ℓ where
  ok : A → Outcome E A
  err : E → Outcome E A
  panic : Outcome E A
