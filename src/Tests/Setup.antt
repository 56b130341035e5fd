-- ===== src/Tests/Setup.antt =====
-- The theorems on initialisation, the layout, the configuration and the timestamps at the small
-- process and at other concrete values.
use log2mem.Prelude.{ℕ, ◌+◌, ◌^◌, ◌≡◌, inr, refl, sym, arith, none, some, List, codes}
use mathlib.Core.Path.{subst}
use log2mem.Memory.{load, store, read_bytes, write_bytes}
use log2mem.Round.{round_up_next_power_of_2}
use log2mem.Round.Power.{IsLeastPower, round_up-IsLeastPower, round_up_overflow}
use log2mem.Config.{load_config, store_config}
use log2mem.Layout.{calculate_layout}
use log2mem.Layout.Packed.{IsPacked, calculate_layout-IsPacked}
use log2mem.State.{Handle, State, Os, MapResult, Clock, returned}
use log2mem.Create.{round_config}
use log2mem.Create.Header.{header-arch}
use log2mem.Init.{config_bytes, copy_config, init, attach}
use log2mem.Ready.{IsReady, IsRounded}
use log2mem.Ready.Rounded.{round_config-IsRounded}
use log2mem.Ready.Fresh.{CanInit, IsFresh, fresh_map, map_size, init-IsFresh}
use log2mem.Ready.Attach.{attach-init, attach-64, attached_handle}
use log2mem.Time.{ts_of_timespec, ts_to_timespec}
use log2mem.Time.Codec.{ts_to_timespec-ts_of_timespec}
use log2mem.Tests.{
  small_os, small_config, small_words, small_pages, small-Fits, small_CanInit, small_IsFresh,
  small_handle, small_state, small_rounded, no_bytes, idle_state,
}

round_up-IsLeastPower_example : IsLeastPower 17 (round_up_next_power_of_2 17)
round_up-IsLeastPower_example = round_up-IsLeastPower 17 (omega arith) (omega arith)

round_up_overflow_example : round_up_next_power_of_2 (2 ^ 31 + 1) ≡ 0
round_up_overflow_example = round_up_overflow (2 ^ 31 + 1) (inr (omega arith))

round_config-IsRounded_example : IsRounded (round_config small_config)
round_config-IsRounded_example = round_config-IsRounded small_config small_words

calculate_layout-IsPacked_example : IsPacked 4096 small_config (calculate_layout 4096 small_config)
calculate_layout-IsPacked_example =
    calculate_layout-IsPacked 4096 small_config small_pages small_words small-Fits

abbrev user : List ℕ
user = config_bytes small_config

user_read : copy_config user 20 ≡ small_config
unfolding copy_config config_bytes load_config store_config load store read_bytes write_bytes
    log2mem.Memory.put
user_read = refl

user-CanInit : CanInit small_os none (copy_config user 20) no_bytes idle_state
user-CanInit =
    subst (λ c. CanInit small_os none c no_bytes idle_state) (sym user_read) small_CanInit

init-IsFresh_example :
    (h : Handle) × (s' : State) × (init small_os none user 20 idle_state ≡ returned tt s')
    × IsFresh
        (round_config (copy_config user 20))
        h
        (map_size small_os (round_config (copy_config user 20)))
        s'
init-IsFresh_example =
    init-IsFresh small_os none user 20 no_bytes idle_state (omega arith) user-CanInit

abbrev second_os : Os
second_os = record small_os {
  attach_map = λ name. MapResult.mapped (fresh_map small_os small_rounded no_bytes);
}

attach-init_example :
    (h : Handle) × (after : State) × (attach second_os (codes "log.dat") idle_state
      ≡ returned (some h) after)
    × IsReady small_rounded h after
    × (h ≡ record small_handle { filename = none })
attach-init_example =
    attach-init small_os second_os none (codes "log.dat") small_config no_bytes idle_state
      idle_state small_CanInit refl refl

attach-64_example :
    attach second_os (codes "log.dat") idle_state
    ≡ returned (some (attached_handle 4096 small_rounded)) (record idle_state {
      mem = small_state.mem;
      handle = some (attached_handle 4096 small_rounded);
    })
attach-64_example =
    attach-64 second_os (codes "log.dat") small_state.mem small_rounded idle_state refl
      small_IsFresh.ready.config (header-arch small_os small_rounded _)

abbrev reading : Clock
reading = record { seconds = 1400000000; fraction = 999999 }

ts_to_timespec-ts_of_timespec_example : ts_to_timespec (ts_of_timespec reading) ≡ reading
ts_to_timespec-ts_of_timespec_example =
    ts_to_timespec-ts_of_timespec reading (omega arith) (omega arith)
