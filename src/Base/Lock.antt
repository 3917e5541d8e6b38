-- ===== src/Base/Lock.antt =====
-- Calls under a mutex that is not recursive.

-- What a call comes to: `blocked` is the wait for a mutex that the calling thread holds itself.
pub data Outcome {ℓ} (A : Type ℓ) : Type ℓ where
  returned : A → Outcome A
  blocked : Outcome A
