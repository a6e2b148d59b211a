-- ===== src/Prelude/Outcome.antt =====
-- What a C function that can fail gives back: its result, an error code, or undefined behaviour.

-- The error codes of <errno.h> that the modelled code returns (with either sign).
pub data Errno : Type 0 where
  eperm eio enomem enodev einval erange : Errno

-- `fault` stands for what C leaves undefined or ends the process for: an access out of an array's
-- bounds, a null pointer read, a failed BUG_ON or NETPERF_ASSERT, a panic.
pub data Outcome {ℓ} (A : Type ℓ) : Type ℓ where
  ok : A → Outcome A
  err : Errno → Outcome A
  fault : Outcome A

infixl 5 ◌>>=◌
abbrev pub ◌>>=◌ {ℓ κ} : {A : Type ℓ} {B : Type κ} → Outcome A → (A → Outcome B) → Outcome B
ok a >>= f = f a
err e >>= f = err e
fault >>= f = fault
