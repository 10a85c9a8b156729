-- ===== src/Prelude/Run.antt =====
-- The ways in which a call can end: it returns, it waits for ever on a mutex that its own thread
-- holds, it goes beyond the bounds of an array or of `int`, or a loop of the model has used up its
-- fuel.

pub data Run {ℓ} (A : Type ℓ) : Type ℓ where
  done : A → Run A
  blocked : Run A
  undefined : Run A
  out_of_fuel : Run A

infixl 5 ◌>>=◌
abbrev pub ◌>>=◌ {ℓ κ} : {A : Type ℓ} {B : Type κ} → Run A → (A → Run B) → Run B
done a >>= f = f a
blocked >>= f = blocked
undefined >>= f = undefined
out_of_fuel >>= f = out_of_fuel
