-- ===== src/Result.antt =====
-- Python's exceptions as values: those that the modelled code raises or catches, and the results
-- of functions that may raise.
use deep_agent_test.Prelude.{ℕ}

-- `http n` is FastAPI's HTTPException with status code n. `no_fuel` is raised by no code: it
-- marks the end of the fuel of a modelled loop.
pub data Error : Type 0 where
  http : ℕ → Error
  value_error type_error key_error overflow_error invalid_operation integrity_error : Error
  -- what the database driver raises on a value that a column does not take
  database_error : Error
  -- what the network calls raise: OSError and its subclasses
  os_error : Error
  -- `next` on an iterator at its end
  stop_iteration : Error
  no_fuel : Error

-- The value that a function returns, or the exception it raises.
pub data Result {ℓ} (Value : Type ℓ) : Type ℓ where
  err : Error → Result Value
  ok : Value → Result Value

infixl 5 ◌>>=◌
abbrev pub ◌>>=◌ {ℓ κ} : {A : Type ℓ} {B : Type κ} → Result A → (A → Result B) → Result B
err e >>= rest = err e
ok value >>= rest = rest value
