-- ===== src/Result.antt =====
-- Undefined behaviour of C as a value. A function of the model that would read or write where C
-- gives no meaning returns `fault` with the reason, and all that follows it is skipped.
use cloudcomputing_lab2_http.Prelude.{ℕ}

pub data Fault : Type 0 where
  -- a write behind the end of an array or a block
  overflow : Fault
  -- a read behind the end of an array or a block
  out_of_bounds : Fault
  -- a read of memory that was never written
  uninitialised : Fault
  -- a read through NULL
  null_pointer : Fault
  -- a number that an int does not hold, where the library leaves open what happens
  out_of_range : Fault
  -- `free` of what no allocation gave, or `pthread_detach` of a thread that cannot be detached
  invalid_argument : Fault
  -- an `assert` that failed
  assertion : Fault
  -- not a fault: the process ended by `exit` with the status
  exit : ℕ → Fault
  -- not a fault of the program: the fuel of a loop ran out
  out_of_fuel : Fault

pub data Result {ℓ} (A : Type ℓ) : Type ℓ where
  ok : A → Result A
  fault : Fault → Result A

-- The rest of a function after a step that may fault.
infixl 5 ◌>>=◌
abbrev pub ◌>>=◌ {ℓ κ} : {A : Type ℓ} {B : Type κ} → Result A → (A → Result B) → Result B
◌>>=◌ step rest = elim step [ ok value ↦ rest value | fault reason ↦ fault reason ]
