-- ===== src/Threads.antt =====
-- Several threads of one process in `log2mem_init` and `__log2mem_init_row` of liblog2mem/log2mem.c,
-- a shared access at a time, with the spinlock of liblog2mem/log2mem_atomic_gcc.h.
pub mod Invariant
pub mod Safety
pub mod Rows
pub mod Alone
pub mod Within
use log2mem.Prelude.{ℕ, zero, suc, ◌^◌, ◌%◌, ◌≤◌, ◌≡◌, ◌≢◌, Option, none, some, List, [], ◌∷◌}
use native.Mathlib.Decide.{ℕ_discrete}
use mathlib.Core.Logic.{ite}
use log2mem.Memory.{Mem}
use log2mem.Abi.{sizeof_config}
use log2mem.Memory.Frame.{Frame}
use log2mem.Config.{Config}
use log2mem.State.{Handle, State, Os, Outcome, returned}
use log2mem.Create.{create}
use log2mem.Init.{copy_config, config_bytes, default_config}
use log2mem.Prelude.{codes}
use log2mem.Row.Log.{take_row_id}

-- The arguments of a call of `log2mem_init` that `__log2mem_create` takes: the file's name, which may be
-- null, and the local copy of the configuration.
pub record InitArgs : Type 0 where
  pub filename : Option (List ℕ)
  pub config : Config

-- Where a thread stands, with the local variables that are live there.
pub data Pc : Type 0 where
  outside : Pc  -- in no function of the library
  calling : InitArgs → Pc  -- before the first test of `g_log2mem` in `log2mem_init`
  spinning : InitArgs → Pc  -- the `while` of `log2mem_atomic_spinlock`
  locked : InitArgs → Pc  -- before the second test of `g_log2mem`
  creating : InitArgs → Pc  -- before `__log2mem_create`
  created : Handle → Pc  -- before `g_log2mem` is set to its result
  leaving : Pc  -- before `log2mem_atomic_spinunlock`
  ready : Pc  -- behind `MEMLOG_PREPARE_PTR` or `log2mem_init`
  logging : (rowid : ℕ) → Pc  -- the rest of `__log2mem_init_row`, and the appends

-- What a step does that is counted.
pub data Event : Type 0 where
  silent : Event
  made : Handle → Event  -- a map and a handle for it
  took : (rowid : ℕ) → Event  -- a row id

-- `__sync_lock_test_and_set(v, 1)`: the old value, and the lock is set whatever it was.
unfoldable pub test_and_set : State → ℕ × State
test_and_set s = (s.lock, record s { lock = 1 })

-- `__sync_lock_release(v)`
unfoldable pub lock_release : State → State
lock_release s = record s { lock = 0 }

-- The row id and the state of `log2mem_atomic_incr_fetch_uint(&nextrow, 1) - 1`.
unfoldable pub fetch_row_id : State → ℕ × State
fetch_row_id s = let (rowid, m) = take_row_id s.mem in (rowid, record s { mem = m })

-- The call of `__default_log2mem_init`.
abbrev pub default_args : Os → InitArgs
default_args os = record {
  filename = os.getenv (codes "MEMLOG_FILENAME");
  config = copy_config (config_bytes default_config) sizeof_config;
}

-- One step of one thread, which may call `log2mem_init` with any arguments at any time, and any other
-- function, which starts with `MEMLOG_PREPARE_PTR`. A call of `__log2mem_create` is one step, as no
-- other thread knows its map before `g_log2mem` is set; one that exits ends the process. A thread
-- that is ready, or has taken a row, makes any stores behind the header, as the functions that set the
-- counters and the variables, and fill the row, do; those of other threads may come between them.
pub data Move (s : State) : Event → Pc → State → Pc → Type 0 where
  prepare_set : {h : Handle} → s.handle ≡ some h → Move s silent outside s ready
  prepare_unset : (os : Os) → s.handle ≡ none → Move s silent outside s (calling (default_args os))
  enter :
      (fn : Option (List ℕ)) (user : List ℕ) (configsize : ℕ)
      → configsize ≤ sizeof_config
      → Move s silent outside s
          (calling (record { filename = fn; config = copy_config user configsize }))
  outer_set : {c : InitArgs} {h : Handle} → s.handle ≡ some h → Move s silent (calling c) s ready
  outer_unset : {c : InitArgs} → s.handle ≡ none → Move s silent (calling c) s (spinning c)
  spin :
      {c : InitArgs}
      → (test_and_set s).0 ≢ 0
      → Move s silent (spinning c) (test_and_set s).1 (spinning c)
  acquire :
      {c : InitArgs}
      → (test_and_set s).0 ≡ 0
      → Move s silent (spinning c) (test_and_set s).1 (locked c)
  inner_set : {c : InitArgs} {h : Handle} → s.handle ≡ some h → Move s silent (locked c) s leaving
  inner_unset : {c : InitArgs} → s.handle ≡ none → Move s silent (locked c) s (creating c)
  make :
      {c : InitArgs} (os : Os) {h : Handle} {s' : State}
      → create os c.filename c.config s ≡ returned h s'
      → Move s (made h) (creating c) s' (created h)
  publish : {h : Handle} → Move s silent (created h) (record s { handle = some h }) leaving
  unlock : Move s silent leaving (lock_release s) ready
  store_ready :
      {lo hi : ℕ} {m : Mem}
      → 256 ≤ lo
      → Frame lo hi s.mem m
      → Move s silent ready (record s { mem = m }) ready
  take : Move s (took (fetch_row_id s).0) ready (fetch_row_id s).1 (logging (fetch_row_id s).0)
  store_behind :
      {rowid lo hi : ℕ} {m : Mem}
      → 256 ≤ lo
      → Frame lo hi s.mem m
      → Move s silent (logging rowid) (record s { mem = m }) (logging rowid)
  logged : {rowid : ℕ} → Move s silent (logging rowid) s outside
  back : Move s silent ready s outside

-- Between the return of `log2mem_atomic_spinlock` and the update in `log2mem_atomic_spinunlock`.
abbrev pub critical : Pc → ℕ
critical (locked _) = 1
critical (creating _) = 1
critical (created _) = 1
critical leaving = 1
critical _ = 0

pub record System : Type 0 where
  pub shared : State
  pub pc : ℕ → Pc

abbrev pub set_pc : (ℕ → Pc) → ℕ → Pc → ℕ → Pc
set_pc pc i p j = ite (ℕ_discrete i j) p (pc j)

-- Any thread takes its next step.
pub data Step (s : System) : Event → System → Type 0 where
  pick :
      (i : ℕ) {e : Event} {s' : State} {p : Pc}
      → Move s.shared e (s.pc i) s' p
      → Step s e (record { shared = s'; pc = set_pc s.pc i p })

-- A process as it starts: no handle, the lock free, its threads outside the library.
abbrev pub begin : Mem → ℕ → System
begin m errno = record {
  shared = record { mem = m; handle = none; errno = errno; lock = 0 };
  pc = λ _. outside;
}

-- The states that a process can reach, with the events on the way, the last one first.
pub data Reach : List Event → System → Type 0 where
  start : (m : Mem) (errno : ℕ) → Reach [] (begin m errno)
  later : {es : List Event} {e : Event} {s t : System} → Reach es s → Step s e t → Reach (e ∷ es) t

-- The handles made and the row ids taken, the last one first.
pub handles : List Event → List Handle
handles [] = []
handles (made h ∷ es) = h ∷ handles es
handles (silent ∷ es) = handles es
handles (took rowid ∷ es) = handles es

unfoldable pub ids : List Event → List ℕ
ids [] = []
ids (took rowid ∷ es) = rowid ∷ ids es
ids (silent ∷ es) = ids es
ids (made h ∷ es) = ids es

-- `n-1, ..., 1, 0`, each in a word of 32 bits.
pub count_down : ℕ → List ℕ
count_down zero = []
count_down (suc n) = n % 2 ^ 32 ∷ count_down n
