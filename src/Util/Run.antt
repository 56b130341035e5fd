-- ===== src/Util/Run.antt =====
-- How a part of the tool ends: with a result, by a read outside the map or of something that was never
-- set, by `exit` with what has been printed and the status, or not at all within the rounds that it is
-- given.
use log2mem.Prelude.{ℕ, List}

pub data Run (A : Type 0) : Type 0 where
  done : A → Run A
  fault : Run A
  exits : List ℕ → ℕ → Run A
  out_of_fuel : Run A

infixl 5 ◌>>=◌
abbrev pub ◌>>=◌ : {A B : Type 0} → Run A → (A → Run B) → Run B
r >>= f = elim r [
  | done a ↦ f a
  | fault ↦ fault
  | exits text status ↦ exits text status
  | out_of_fuel ↦ out_of_fuel
]
