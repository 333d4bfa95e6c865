-- ===== src/Prelude/Results.antt =====
-- What a Go function with an error result returns.
pub data Result {ℓ} (E : Type 0) (A : Type ℓ) : Type ℓ where
  ok : A → Result E A
  err : E → Result E A
