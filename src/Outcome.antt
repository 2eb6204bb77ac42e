-- ===== src/Outcome.antt =====
-- The outcome of C code that can return an error or touch memory outside its buffers.
-- `rejected` is an error return (`-1`, or the 0 of a size); `fault` an access that the source does
-- not guard and that falls outside the memory it was given.
pub data Outcome {ℓ} (A : Type ℓ) : Type ℓ where
  done : A → Outcome A
  rejected : Outcome A
  fault : Outcome A

infixl 5 ◌>>=◌
abbrev pub ◌>>=◌ {ℓ κ} : {A : Type ℓ} {B : Type κ} → Outcome A → (A → Outcome B) → Outcome B
done a >>= f = f a
rejected >>= f = rejected
fault >>= f = fault
