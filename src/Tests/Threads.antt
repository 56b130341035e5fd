-- ===== src/Tests/Threads.antt =====
-- Tests and examples of several threads: two that initialise at the same time and log.
use log2mem.Prelude.{ℕ, ◌≤◌, ◌≡◌, ◌≢◌, ◌⊎◌, ◌∷◌, refl, none, some, List, [], length, arith}
use log2mem.State.{Handle, State, returned}
use log2mem.Create.{create, round_config}
use log2mem.Config.{Config}
use log2mem.Init.{init, copy_config, config_bytes}
use log2mem.Ready.Fresh.{
  CanInit, IsFresh, map_size, fresh_map, fresh_handle, fresh_state, fresh_state-IsFresh,
}
use log2mem.Threads.{
  begin, InitArgs, Pc, creating, ready, logging, Event, outer_unset, enter, spin, acquire,
  inner_set, inner_unset, make, publish, unlock, take, System, pick, Reach, start, later, critical,
  handles, ids, count_down, test_and_set, lock_release, fetch_row_id,
}
use log2mem.Threads.Safety.{mutual_exclusion, made_once, ids-count_down, no_deadlock}
use log2mem.Threads.Rows.{rows_apart}
use log2mem.Threads.Within.{IsReached, init-IsReached, init_row-IsReached}
use mathlib.Core.Path.{subst}
use log2mem.Prelude.{sym, codes}
use log2mem.Row.Log.{init_row}
use log2mem.Row.Slot.{slot, slot_of}
use log2mem.Ring.{Represents, empty_log}
use log2mem.Start.{fresh-Represents}
use log2mem.Tests.{small_os, small_config, small_CanInit, no_bytes, idle_state}

abbrev given : List ℕ
given = config_bytes small_config

-- Two threads find no handle; the first has the lock, and the second tries it in vain.
abbrev waiting : (es : List Event) × (s : System) × Reach es s
unfolding native.Mathlib.Decide.ℕ_discrete test_and_set
waiting = (
  _,
  _,
  later
      (later
        (later
          (later
            (later (later (start no_bytes 0) (pick 0 (enter none given 20 (omega arith))))
              (pick 0 (outer_unset refl)))
            (pick 1 (enter none given 20 (omega arith))))
          (pick 1 (outer_unset refl)))
        (pick 0 (acquire refl)))
      (pick 1 (spin (omega arith))),
)

mutual_exclusion_example : critical (waiting.1.pc 1) ≡ 0
unfolding native.Mathlib.Decide.ℕ_discrete test_and_set
mutual_exclusion_example = mutual_exclusion waiting.2 0 1 (omega arith) refl

no_deadlock_example :
    (waiting.1.shared.lock ≡ 0) ⊎ ((j : ℕ) × (j ≢ 1) × (critical (waiting.1.pc j) ≡ 1))
unfolding native.Mathlib.Decide.ℕ_discrete test_and_set
no_deadlock_example =
    no_deadlock waiting.2 1 (record { filename = none; config = copy_config given 20 }) refl

abbrev small_rounded : Config
small_rounded = round_config (copy_config given 20)

small_create :
    create small_os none
      (copy_config given 20)
      (record { mem = no_bytes; handle = none; errno = 0; lock = 1 })
    ≡ returned (fresh_handle small_os none (copy_config given 20)) (record {
      mem = fresh_map small_os small_rounded no_bytes;
      handle = none;
      errno = 0;
      lock = 1;
    })
unfolding create
small_create = refl

-- The first thread makes the map, the second finds it, and both take a row.
abbrev both_log : (es : List Event) × (s : System) × Reach es s
unfolding native.Mathlib.Decide.ℕ_discrete test_and_set lock_release fetch_row_id
both_log = (
  _,
  _,
  later
      (later
        (later
          (later
            (later
              (later
                (later
                  (later (later waiting.2 (pick 0 (inner_unset refl)))
                    (pick 0 (make small_os small_create)))
                  (pick 0 publish))
                (pick 0 unlock))
              (pick 1 (acquire refl)))
            (pick 1 (inner_set refl)))
          (pick 1 unlock))
        (pick 1 take))
      (pick 0 take),
)

made_once_example :
    (length (handles both_log.0) ≤ 1)
    × ((h : Handle) → both_log.1.shared.handle ≡ some h → handles both_log.0 ≡ h ∷ [])
    × ((i : ℕ) (c : InitArgs) → both_log.1.pc i ≡ creating c → handles both_log.0 ≡ [])
made_once_example = made_once both_log.2

ids-count_down_example : ids both_log.0 ≡ count_down (length (ids both_log.0))
ids-count_down_example = ids-count_down both_log.2

both_ids : length (ids both_log.0) ≡ 2
unfolding native.Mathlib.Decide.ℕ_discrete test_and_set lock_release fetch_row_id ids
both_ids = refl

abbrev row_of : Pc → ℕ
row_of (logging a) = a
row_of _ = 0

rows_apart_example : row_of (both_log.1.pc 0) ≢ row_of (both_log.1.pc 1)
unfolding native.Mathlib.Decide.ℕ_discrete test_and_set lock_release fetch_row_id
rows_apart_example =
    rows_apart both_log.2 (omega (arith, both_ids)) 0 1 (row_of (both_log.1.pc 0))
      (row_of (both_log.1.pc 1)) (omega arith) refl refl

small_init :
    init small_os none given 20 idle_state
    ≡ returned tt (fresh_state small_os none (copy_config given 20) no_bytes idle_state)
unfolding init create
small_init = refl

init-IsReached_example :
    IsReached []
      (begin no_bytes 0)
      3
      (fresh_state small_os none (copy_config given 20) no_bytes idle_state)
      ready
init-IsReached_example =
    init-IsReached (begin no_bytes 0) 3 small_os none given 20
      (fresh_state small_os none (copy_config given 20) no_bytes idle_state) (start no_bytes 0) refl
      refl (omega arith) small_init

-- The first thread has made the map, and is ready.
abbrev one_ready : (es : List Event) × (s : System) × Reach es s
unfolding native.Mathlib.Decide.ℕ_discrete test_and_set lock_release
one_ready = (
  _,
  _,
  later
      (later
        (later
          (later
            (later
              (later (later (start no_bytes 0) (pick 0 (enter none given 20 (omega arith))))
                (pick 0 (outer_unset refl)))
              (pick 0 (acquire refl)))
            (pick 0 (inner_unset refl)))
          (pick 0 (make small_os small_create)))
        (pick 0 publish))
      (pick 0 unlock),
)

given_read : copy_config given 20 ≡ small_config
unfolding copy_config config_bytes log2mem.Config.load_config log2mem.Config.store_config
    log2mem.Memory.load log2mem.Memory.store log2mem.Memory.read_bytes log2mem.Memory.write_bytes
    log2mem.Memory.put
given_read = refl

one_IsFresh :
    IsFresh small_rounded
      (fresh_handle small_os none (copy_config given 20))
      (map_size small_os small_rounded)
      one_ready.1.shared
unfolding native.Mathlib.Decide.ℕ_discrete test_and_set lock_release
one_IsFresh =
    fresh_state-IsFresh small_os none (copy_config given 20) no_bytes idle_state
      (subst (λ c. CanInit small_os none c no_bytes idle_state) (sym given_read) small_CanInit)

one_Represents :
    Represents small_rounded
      (fresh_handle small_os none (copy_config given 20))
      one_ready.1.shared.mem
      empty_log
one_Represents = fresh-Represents one_IsFresh

init_row-IsReached_example :
    (s' : State) × (init_row small_os (some (codes "main.c")) 12 one_ready.1.shared
      ≡ returned
          (some (
            slot small_rounded
              (fresh_handle small_os none (copy_config given 20))
              (slot_of small_rounded 0)))
          s')
    × IsReached one_ready.0 one_ready.1 0 s' (logging 0)
unfolding native.Mathlib.Decide.ℕ_discrete test_and_set lock_release
init_row-IsReached_example =
    init_row-IsReached one_ready.1 0 small_os empty_log (some (codes "main.c")) 12 one_ready.2 refl
      one_IsFresh.ready one_Represents (omega arith) (omega arith)
