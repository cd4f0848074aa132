-- ===== src/Random/Run.antt =====
-- The outcome of a call that may loop: `fault` is an access out of bounds and `overflow` an overflow of
-- `int`, which C both leaves undefined, `out_of_fuel` has no counterpart in the program, and `arg_error n` is the
-- Lua error that `luaL_check...` raises on the argument `n`.
use lua2sc.Prelude.{ℕ, Option, none, some}

pub data Run {ℓ} (A : Type ℓ) : Type ℓ where
  done : A → Run A
  fault overflow out_of_fuel : Run A
  arg_error : ℕ → Run A

abbrev pub of_option {ℓ} : {A : Type ℓ} → Option A → Run A
of_option none = fault
of_option (some a) = done a

infixl 5 ◌>>=◌
abbrev pub ◌>>=◌ {ℓ κ} : {A : Type ℓ} {B : Type κ} → Run A → (A → Run B) → Run B
done a >>= f = f a
fault >>= f = fault
overflow >>= f = overflow
out_of_fuel >>= f = out_of_fuel
arg_error n >>= f = arg_error n

abbrev pub map {ℓ κ} : {A : Type ℓ} {B : Type κ} → (A → B) → Run A → Run B
map f (done a) = done (f a)
map f fault = fault
map f overflow = overflow
map f out_of_fuel = out_of_fuel
map f (arg_error n) = arg_error n
