-- ===== src/Base/Exits.antt =====
-- How a call ends: it returns a value, it returns an error, or the thread panics.

pub data Exit {ℓ} (E A : Type ℓ) : Type ℓ where
  ok : A → Exit E A
  err : E → Exit E A
  panic : Exit E A
