-- ===== src/Tests.antt =====
-- A small process on which the theorems are applied: pages of 4096 bytes, 2 counters, 2 rows of 64
-- bytes of payload and 2 variables of each kind.
mod Rows
mod Counters
mod Vars
mod Setup
mod Calls
mod Tool
mod Args
mod Threads
use log2mem.Prelude.{
  ℕ, ◌+◌, ◌*◌, ◌^◌, ◌<◌, ◌≤◌, ◌≡◌, refl, arith, Option, none, some, List, [], codes, true,
}
use log2mem.Memory.{Mem}
use log2mem.Config.{Config, IsConfig}
use log2mem.Layout.Packed.{IsPageSize, Fits}
use log2mem.State.{Handle, State, Os, MapResult, mapped}
use log2mem.Create.{round_config}
use log2mem.Init.{config_bytes, copy_config}
use log2mem.Ready.{IsReady, IsPowerOfTwo}
use log2mem.Ready.Fresh.{CanInit, IsFresh, fresh_handle, fresh_state, map_size, fresh_state-IsFresh}
use log2mem.Start.{fresh-Represents, fresh-HasBank, fresh-HasVars, no_counts, no_vars}
use log2mem.Ring.{Represents, empty_log}
use log2mem.Counter.Bank.{HasBank}
use log2mem.Var.{Kind}
use log2mem.Var.Cell.{HasVars}

abbrev pub no_bytes : Mem
no_bytes b = 0

-- Every file can be enlarged and mapped.
abbrev pub small_os : Os
small_os = record {
  page_size = 4096;
  getenv = λ name. none;
  getlogin_r = some (codes "ada");
  cuserid = [];
  localtime = record { year = 114; mon = 4; mday = 3; hour = 12; min = 30; sec = 5 };
  gettid = 77;
  rdtsc = 1000;
  gettimeofday = record { seconds = 1400000000; fraction = 250000 };
  clock_gettime = record { seconds = 1400000000; fraction = 250000123 };
  ftruncate = λ name size. true;
  mmap = λ name size. some no_bytes;
  attach_map = λ name. MapResult.stat_failed;
}

abbrev pub small_config : Config
small_config = record { options = 3; num_counters = 2; num_rows = 2; row_len = 64; num_vars = 2 }

abbrev pub idle_state : State
idle_state = record { mem = no_bytes; handle = none; errno = 0; lock = 0 }

pub small_words : IsConfig small_config
small_words = record {
  options_fit = omega arith;
  num_counters_fit = omega arith;
  num_rows_fit = omega arith;
  row_len_fit = omega arith;
  num_vars_fit = omega arith;
}

pub small_pages : IsPageSize 4096
small_pages = record { exponent = 12; is_power = refl; small = omega arith }

pub small-Fits : Fits 4096 small_config
small-Fits = omega arith

pub small_CanInit : CanInit small_os none small_config no_bytes idle_state
unfolding round_config log2mem.Round.round_up_next_power_of_2
small_CanInit = record {
  no_handle = refl;
  lock_free = refl;
  page = small_pages;
  words = small_words;
  fits = small-Fits;
  truncates = refl;
  maps = refl;
}

abbrev pub small_handle : Handle
small_handle = fresh_handle small_os none small_config

abbrev pub small_state : State
small_state = fresh_state small_os none small_config no_bytes idle_state

abbrev pub small_rounded : Config
small_rounded = round_config small_config

pub small_IsFresh : IsFresh small_rounded small_handle (map_size small_os small_rounded) small_state
small_IsFresh = fresh_state-IsFresh small_os none small_config no_bytes idle_state small_CanInit

pub small_IsReady : IsReady small_rounded small_handle small_state
small_IsReady = small_IsFresh.ready

pub small_Represents : Represents small_rounded small_handle small_state.mem empty_log
small_Represents = fresh-Represents small_IsFresh

pub small_HasBank : HasBank small_rounded small_handle small_state.mem no_counts
small_HasBank = fresh-HasBank small_IsFresh

pub small_HasVars : (k : Kind) → HasVars k small_rounded small_handle small_state.mem no_vars
small_HasVars k = fresh-HasVars small_IsFresh k

pub small_vars : IsPowerOfTwo small_rounded.num_vars
unfolding round_config log2mem.Round.round_up_next_power_of_2
small_vars = record { exponent = 1; is_power = refl; small = omega arith }
