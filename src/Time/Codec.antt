-- ===== src/Time/Codec.antt =====
-- A clock reading survives the packing into 64 bits.
use mathlib.Core.Logic.{◌↔◌}
use log2mem.Prelude.{◌/◌, ◌^◌, ◌<◌, ◌≡◌, ◌⊎◌, inl, inr, arith, bit_and-low}
use native.Mathlib.Decide.{dec_lt}
use log2mem.State.{Clock}
use log2mem.Time.{ts_of_timeval, ts_of_timespec, ts_to_timespec, ts_to_timeval}

-- What `clock_gettime` read comes back whole from its timestamp, if the seconds fit 34 bits and
-- the nanoseconds are below 10 ^ 9.
pub ts_to_timespec-ts_of_timespec :
    (t : Clock) → t.seconds < 2 ^ 34 → t.fraction < 10 ^ 9 → ts_to_timespec (ts_of_timespec t) ≡ t
unfolding ts_to_timespec ts_of_timespec
ts_to_timespec-ts_of_timespec t hs hf =
    ground (arith, bit_and-low 34 (ts_of_timespec t / 2 ^ 30), bit_and-low 30 (ts_of_timespec t))

-- What `gettimeofday` read comes back whole from its timestamp, if the seconds fit 34 bits and the
-- microseconds are below 10 ^ 6.
pub ts_to_timeval-ts_of_timeval :
    (t : Clock) → t.seconds < 2 ^ 34 → t.fraction < 10 ^ 6 → ts_to_timeval (ts_of_timeval t) ≡ t
unfolding ts_to_timeval ts_of_timeval
ts_to_timeval-ts_of_timeval t hs hf =
    ground (arith, bit_and-low 34 (ts_of_timeval t / 2 ^ 30), bit_and-low 30 (ts_of_timeval t))

-- One timestamp is below another exactly if its reading is earlier, by seconds and then
-- nanoseconds, for readings with seconds of 34 bits and nanoseconds below 10 ^ 9.
pub ts_of_timespec-lt :
    (t u : Clock)
    → t.seconds < 2 ^ 34
    → u.seconds < 2 ^ 34
    → t.fraction < 10 ^ 9
    → u.fraction < 10 ^ 9
    → (ts_of_timespec t < ts_of_timespec u)
      ↔ ((t.seconds < u.seconds) ⊎ ((t.seconds ≡ u.seconds) × (t.fraction < u.fraction)))
unfolding ts_of_timespec
ts_of_timespec-lt t u ht hu ft fu = (
  λ h. elim (dec_lt t.seconds u.seconds) [ yes p ↦ inl p | no p ↦ inr (omega arith, omega arith) ],
  λ h. omega arith,
)
