-- ===== src/Init.antt =====
-- Initialisation: `log2mem_init`, `__default_log2mem_init` and `MEMLOG_PREPARE_PTR` of
-- liblog2mem/log2mem.c, `log2mem_attach`, and the functions that report on the handle.
use log2mem.Prelude.{ℕ, ◌+◌, ◌^◌, ◌==◌, ltb, if◌then◌else◌, Option, none, some, List, codes, take}
use log2mem.Memory.{Mem, load, read_bytes, write_bytes}
use log2mem.Abi.{sizeof_config}
use log2mem.Config.{Config, load_config, store_config, memlog_fileline, memlog_threadid}
use log2mem.Layout.{calculate_layout}
use log2mem.State.{Handle, Os, MapResult, M, pure, ◌>>=◌, ◌>>◌}
use log2mem.State.{returned, spins, undefined}
use log2mem.Create.{create, section_pointers}

-- `log2mem_atomic_spinlock` while no other thread runs: the lock is taken at once or never.
spinlock : M (Unit {0})
spinlock s = if s.lock == 0 then returned tt (record s { lock = 1 }) else spins

spinunlock : M (Unit {0})
spinunlock s = returned tt (record s { lock = 0 })

set_handle : Handle → M (Unit {0})
set_handle h s = returned tt (record s { handle = some h })

-- The local copy of the user's configuration: `memset` to 0, then `memcpy` of `configsize` bytes.
-- More bytes than the structure has, and a negative size, write past it. The user's object has
-- `configsize` bytes; zeros stand behind a shorter list.
unfoldable pub copy_config : List ℕ → ℕ → Config
copy_config user configsize = load_config 0 (write_bytes 0 (take configsize user) (λ _. 0))

create_once : Os → Option (List ℕ) → Config → M (Unit {0})
unfolding set_handle
create_once os filename config s = elim s.handle [
  | some h ↦ returned tt s
  | none ↦ (create os filename config >>= set_handle) s
]

-- Double checked locking.
unfoldable pub init : Os → Option (List ℕ) → List ℕ → ℕ → M (Unit {0})
unfolding create_once spinlock spinunlock
init os filename user configsize s =
    let config = copy_config user configsize in
    if ltb sizeof_config configsize then undefined else elim s.handle [
      | some h ↦ returned tt s
      | none ↦ (spinlock >> create_once os filename config >> spinunlock) s
    ]

-- The bytes of a configuration object.
unfoldable pub config_bytes : Config → List ℕ
config_bytes c = read_bytes sizeof_config 0 (store_config 0 c (λ _. 0))

abbrev pub default_config : Config
default_config = record {
  options = memlog_fileline + memlog_threadid;
  num_counters = 16;
  num_rows = 2 ^ 16;
  row_len = 256;
  num_vars = 10;
}

unfoldable pub default_init : Os → M (Unit {0})
default_init os =
    init os (os.getenv (codes "MEMLOG_FILENAME")) (config_bytes default_config) sizeof_config

-- `MEMLOG_PREPARE_PTR`
unfoldable pub prepare_ptr : Os → M (Unit {0})
prepare_ptr os s = elim s.handle [ some h ↦ returned tt s | none ↦ default_init os s ]

-- `MEMLOG_PREPARE_PTR`, then the body if the handle is valid and the early return if it is not.
abbrev pub with_handle : {A : Type 0} → Os → A → (Handle → M A) → M A
with_handle os early body =
    prepare_ptr os >> λ s. elim s.handle [ none ↦ returned early s | some h ↦ body h s ]

-- The result is whether the handle is valid.
unfoldable pub valid : Os → M ℕ
valid os = with_handle os 0 (λ h. pure 1)

unfoldable pub filename : Os → M (Option (List ℕ))
filename os = with_handle os none (λ h. pure h.filename)

abbrev pub memlog_error_incompatible_arch : ℕ
memlog_error_incompatible_arch = 1

unfoldable pub strerr : ℕ → List ℕ
strerr errno =
    if errno == 0
    then codes "no error"
    else if errno == memlog_error_incompatible_arch
    then codes "memmap 32/64 bits architecture differs to program"
    else codes "unknown error"

-- The file is mapped: the handle is kept if the map was made on the same architecture.
unfoldable pub attach_mapped : Os → Mem → M (Option Handle)
attach_mapped os m s =
    let h = section_pointers (calculate_layout os.page_size (load_config 32 m)) none in
    if load 4 56 m == 64
    then returned (some h) (record s { mem = m; handle = some h })
    else returned none (record s { mem = m; handle = none; errno = memlog_error_incompatible_arch })

-- The result is the handle, if the file could be mapped and was made on the same architecture.
unfoldable pub attach : Os → List ℕ → M (Option Handle)
attach os name s = elim (os.attach_map name) [
  | MapResult.stat_failed ↦ returned none s
  | MapResult.map_failed ↦ returned none s
  | MapResult.mapped m ↦ attach_mapped os m s
]
