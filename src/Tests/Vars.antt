-- ===== src/Tests/Vars.antt =====
-- The theorems on the variables at the small process.
use log2mem.Prelude.{◌^◌, ◌<◌, ◌≡◌, refl, arith, none, some, codes, ◌==◌, if◌then◌else◌}
use log2mem.State.{State, returned, ◌>>◌}
use log2mem.Var.{double_var, int_var, value_size, var_init, var_set, var_get}
use log2mem.Var.Cell.{var_index}
use log2mem.Var.Twice.{var_get-var_set, var_init_once}
use log2mem.Start.{no_vars}
use log2mem.Config.{Config}
use log2mem.Create.{round_config}
use log2mem.Init.{config_bytes}
use log2mem.Prelude.{ℕ, List}
use log2mem.Tests.{small_os, small_state, small_rounded, small_IsReady, small_HasVars, small_vars}

int_fits : 9 < 256 ^ value_size int_var
unfolding value_size
int_fits = omega arith

double_fits : 2 ^ 62 < 256 ^ value_size double_var
unfolding value_size
double_fits = omega arith

var_get-var_set_example :
    (s' : State) × ((var_set int_var small_os 1 9 >> var_get int_var small_os 3) small_state
      ≡ returned
          (if var_index small_rounded 1 == var_index small_rounded 3
            then 9
            else (no_vars (var_index small_rounded 3)).value)
          s')
var_get-var_set_example =
    var_get-var_set int_var small_os small_os small_vars small_IsReady (small_HasVars int_var) 1 3 9
      int_fits

same_index : var_index small_rounded 1 ≡ var_index small_rounded 3
unfolding log2mem.Create.round_config log2mem.Round.round_up_next_power_of_2
same_index = refl

var_init_once_example :
    (s' : State) × (var_init int_var small_os 1 9 none small_state ≡ returned tt s')
    × ((var_init int_var small_os 1 9 none >> var_init int_var small_os 3 8 (some (codes "late")))
          small_state
        ≡ returned tt s')
var_init_once_example =
    var_init_once int_var small_os small_os small_vars small_IsReady (small_HasVars int_var) 1 3 9 8
      none (some (codes "late")) int_fits same_index

abbrev bare_config : Config
bare_config = record { options = 3; num_counters = 2; num_rows = 2; row_len = 64; num_vars = 0 }

abbrev bare_user : List ℕ
bare_user = config_bytes bare_config
