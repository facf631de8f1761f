-- ===== src/Errors.antt =====
-- shared/errors.py, with the exceptions of Python that the modelled code raises. A call that may
-- raise returns a `Result`.
pub data Error : Type 0 where
  value_error key_error runtime_error overflow_error : Error
  index_error zero_division_error attribute_error : Error
  configuration_error model_unavailable_error inference_timeout_error stale_frame_error : Error

pub data Result {ℓ} (A : Type ℓ) : Type ℓ where
  ok : A → Result A
  err : Error → Result A

-- An exception leaves the rest out.
infixl 5 ◌>>=◌
abbrev pub ◌>>=◌ {ℓ κ} : {A : Type ℓ} {B : Type κ} → Result A → (A → Result B) → Result B
ok a >>= f = f a
err e >>= f = err e
