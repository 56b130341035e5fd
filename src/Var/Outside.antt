-- ===== src/Var/Outside.antt =====
-- A map without variables: every access of the functions for variables is outside the array.
use log2mem.Prelude.{ℕ, ◌≡◌, Option, List}
use log2mem.Config.{Config}
use log2mem.State.{State, Os, undefined}
use log2mem.Init.{init}
use log2mem.Var.{Kind, var_init, var_set, var_get, var_used}

-- What every one of the functions does, for any kind and arguments.
pub record AreUndefined (s : State) : Type 0 where
  pub init :
      (k : Kind) (os : Os) (id v : ℕ) (src : Option (List ℕ)) → var_init k os id v src s ≡ undefined
  pub set : (k : Kind) (os : Os) (id v : ℕ) → var_set k os id v s ≡ undefined
  pub get : (k : Kind) (os : Os) (id : ℕ) → var_get k os id s ≡ undefined
  pub used : (k : Kind) (os : Os) (id : ℕ) → var_used k os id s ≡ undefined
