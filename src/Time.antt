-- ===== src/Time.antt =====
-- Timestamps: `log2mem_time`, the clock source that `__log2mem_init_row` reads, and the conversions
-- `log2mem_ts_to_timespec` and `log2mem_ts_to_timeval` of liblog2mem/log2mem.c.
pub mod Codec
use log2mem.Prelude.{ℕ, ◌+◌, ◌-◌, ◌*◌, ◌/◌, ◌^◌, bit_and, ◌==◌, if◌then◌else◌, u64}
use log2mem.Prelude.{Option, none, some}
use log2mem.Memory.{load}
use log2mem.Config.{memlog_clocksource_mask, memlog_rdtsc, memlog_gettimeofday, memlog_clockgettime}
use log2mem.State.{Os, Clock, M, Handle, State, returned, exited, spins, undefined}
use log2mem.Init.{prepare_ptr}

-- The three clock sources. Microseconds are brought to nanoseconds; 30 bits hold those.
unfoldable pub ts_of_timeval : Clock → ℕ
ts_of_timeval tp = u64 (u64 (tp.seconds * 2 ^ 30) + tp.fraction * 1000)

unfoldable pub ts_of_timespec : Clock → ℕ
ts_of_timespec ts = u64 (u64 (ts.seconds * 2 ^ 30) + ts.fraction)

-- `switch (options & MEMLOG_CLOCKSOURCE_MASK)`; `none` where no case fits.
unfoldable pub clock_source : Os → ℕ → Option ℕ
clock_source os options =
    let source = bit_and options memlog_clocksource_mask in
    if source == memlog_rdtsc
    then some os.rdtsc
    else if source == memlog_gettimeofday
    then some (ts_of_timeval os.gettimeofday)
    else if source == memlog_clockgettime
    then some (ts_of_timespec os.clock_gettime)
    else none

or_zero : Option ℕ → ℕ
or_zero none = 0
or_zero (some ts) = ts

-- With no handle, control would run off the end of the function.
unfoldable pub time : Os → M ℕ
unfolding or_zero
time os s = elim (prepare_ptr os s) [
  | returned _ s' ↦ elim s'.handle [
    | none ↦ undefined
    | some h ↦ returned (or_zero (clock_source os (load 4 32 s'.mem))) s'
  ]
  | exited n ↦ exited n
  | spins ↦ spins
  | undefined ↦ undefined
]

unfoldable pub ts_to_timespec : ℕ → Clock
ts_to_timespec ts = record {
  seconds = bit_and (ts / 2 ^ 30) 0x3FFFFFFFF;
  fraction = bit_and ts 0x3FFFFFFF;
}

unfoldable pub ts_to_timeval : ℕ → Clock
ts_to_timeval ts = record {
  seconds = bit_and (ts / 2 ^ 30) 0x3FFFFFFFF;
  fraction = bit_and ts 0x3FFFFFFF / 1000;
}
