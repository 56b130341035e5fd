-- ===== src/Config.antt =====
-- `struct log2mem_config`, as it stands in a program and as it stands in bytes, and the options that
-- it holds (liblog2mem/log2mem/log2mem.h).
pub mod Bytes
use log2mem.Prelude.{ℕ, ◌+◌, ◌^◌, ◌<◌}
use log2mem.Memory.{Mem, load, store}

-- The fields are bit patterns of 32 bits.
pub record Config : Type 0 where
  pub options : ℕ
  pub num_counters : ℕ
  pub num_rows : ℕ
  pub row_len : ℕ
  pub num_vars : ℕ

pub record IsConfig (c : Config) : Type 0 where
  pub options_fit : c.options < 2 ^ 32
  pub num_counters_fit : c.num_counters < 2 ^ 32
  pub num_rows_fit : c.num_rows < 2 ^ 32
  pub row_len_fit : c.row_len < 2 ^ 32
  pub num_vars_fit : c.num_vars < 2 ^ 32

-- `enum log2mem_options`
abbrev pub memlog_fileline : ℕ
memlog_fileline = 1

abbrev pub memlog_threadid : ℕ
memlog_threadid = 2

abbrev pub memlog_gettimeofday : ℕ
memlog_gettimeofday = 4

abbrev pub memlog_clockgettime : ℕ
memlog_clockgettime = 8

abbrev pub memlog_rdtsc : ℕ
memlog_rdtsc = 12

abbrev pub memlog_clocksource_mask : ℕ
memlog_clocksource_mask = 12

-- The structure at address `a`.
unfoldable pub load_config : ℕ → Mem → Config
load_config a m = record {
  options = load 4 a m;
  num_counters = load 4 (a + 4) m;
  num_rows = load 4 (a + 8) m;
  row_len = load 4 (a + 12) m;
  num_vars = load 4 (a + 16) m;
}

unfoldable pub store_config : ℕ → Config → Mem → Mem
store_config a c m = store 4 (a + 16) c.num_vars (
    store 4 (a + 12) c.row_len
      (store 4 (a + 8) c.num_rows (store 4 (a + 4) c.num_counters (store 4 a c.options m))))
