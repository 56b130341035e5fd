-- ===== src/State.antt =====
-- The process that uses the library: its globals, the memory map, and what the operating system
-- answers during one call.
use log2mem.Prelude.{ℕ, Bool, Option, List}
use log2mem.Memory.{Mem}

-- `struct log2mem_handle`. `mem` and `header` are address 0; the other pointers are relative to it.
pub record Handle : Type 0 where
  pub counters : ℕ
  pub rows : ℕ
  pub counter_labels : ℕ
  pub double_vars : ℕ
  pub int_vars : ℕ
  pub filename : Option (List ℕ)

-- `g_log2mem`, `g_log2mem_errno`, `g_log2mem_lock`, and the bytes that `g_log2mem->mem` points to.
pub record State : Type 0 where
  pub mem : Mem
  pub handle : Option Handle
  pub errno : ℕ
  pub lock : ℕ

-- `struct tm`, as far as it is printed.
pub record BrokenTime : Type 0 where
  pub year : ℕ
  pub mon : ℕ
  pub mday : ℕ
  pub hour : ℕ
  pub min : ℕ
  pub sec : ℕ

-- `struct timeval` and `struct timespec`: seconds, and micro- or nanoseconds.
pub record Clock : Type 0 where
  pub seconds : ℕ
  pub fraction : ℕ

-- What `fstat` and `mmap` answer for a file that is to be attached.
pub data MapResult : Type 0 where
  stat_failed : MapResult
  map_failed : MapResult
  mapped : Mem → MapResult

-- The answers of the C library and the kernel during one call. Texts are without their final NUL.
pub record Os : Type 0 where
  pub page_size : ℕ
  pub getenv : List ℕ → Option (List ℕ)
  pub getlogin_r : Option (List ℕ)
  pub cuserid : List ℕ
  pub localtime : BrokenTime
  pub gettid : ℕ
  pub rdtsc : ℕ
  pub gettimeofday : Clock
  pub clock_gettime : Clock
  -- Whether `ftruncate` succeeds, and what the enlarged file holds if `mmap` does.
  pub ftruncate : List ℕ → ℕ → Bool
  pub mmap : List ℕ → ℕ → Option Mem
  pub attach_map : List ℕ → MapResult

-- How a call ends: it returns, calls `exit`, spins on the lock for ever, or does what C leaves
-- undefined.
pub data Outcome (A : Type 0) : Type 0 where
  returned : A → State → Outcome A
  exited : ℕ → Outcome A
  spins : Outcome A
  undefined : Outcome A

abbrev pub M : Type 0 → Type 0
M A = State → Outcome A

infixl 5 ◌>>=◌ ◌>>◌
abbrev pub ◌>>=◌ : {A B : Type 0} → M A → (A → M B) → M B
◌>>=◌ m f s = elim (m s) [
  | returned a s' ↦ f a s'
  | exited n ↦ exited n
  | spins ↦ spins
  | undefined ↦ undefined
]

abbrev pub ◌>>◌ : {B : Type 0} → M (Unit {0}) → M B → M B
m >> k = m >>= λ _. k

abbrev pub pure : {A : Type 0} → A → M A
pure a s = returned a s
