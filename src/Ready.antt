-- ===== src/Ready.antt =====
-- A process whose handle is set: what every operation of the library relies on and keeps.
pub mod Index
pub mod Rounded
pub mod Fresh
pub mod Attach
pub mod Again
pub mod Prepared
use log2mem.Prelude.{ℕ, ◌+◌, ◌*◌, ◌^◌, ◌≤◌, ◌<◌, ◌≡◌, ◌⊎◌, some}
use log2mem.Memory.{Mem}
use log2mem.Config.{Config, load_config}
use log2mem.State.{Handle, State}

pub record IsPowerOfTwo (n : ℕ) : Type 0 where
  pub exponent : ℕ
  pub is_power : n ≡ 2 ^ exponent
  pub small : exponent < 32

pub record IsRounded (c : Config) : Type 0 where
  pub counters : IsPowerOfTwo c.num_counters
  pub rows : IsPowerOfTwo c.num_rows
  pub vars : (c.num_vars ≡ 0) ⊎ IsPowerOfTwo c.num_vars

-- The sections as the handle points to them: where each starts, and how far its elements reach.
pub record IsMapped (c : Config) (h : Handle) : Type 0 where
  pub counters_at : h.counters ≡ 256
  pub rows_at : h.rows ≡ 256 + c.num_counters * 8
  pub labels_after : h.rows + c.num_rows * (24 + c.row_len) ≤ h.counter_labels
  pub doubles_at : h.double_vars ≡ h.counter_labels + c.num_counters * 64
  pub ints_at : h.int_vars ≡ h.double_vars + c.num_vars * 80
  pub ints_end : h.int_vars + c.num_vars * 72 < 2 ^ 31

-- What holds of a configuration and the handle made from it.
pub record IsSetUp (c : Config) (h : Handle) : Type 0 where
  pub rounded : IsRounded c
  pub is_mapped : IsMapped c h
  pub row_len_fits : c.row_len < 2 ^ 31

-- The header in the map holds this configuration.
pub record HasConfig (c : Config) (m : Mem) : Type 0 where
  pub loads : load_config 32 m ≡ c

pub record IsReady (c : Config) (h : Handle) (s : State) : Type 0 where
  pub has_handle : s.handle ≡ some h
  pub config : HasConfig c s.mem
  pub set_up : IsSetUp c h
