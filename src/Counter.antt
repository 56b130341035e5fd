-- ===== src/Counter.antt =====
-- The counters: `log2mem_counter_add`, `log2mem_counter_incr` and `log2mem_counter_label` of
-- liblog2mem/log2mem.c.
pub mod Bank
pub mod Refine
pub mod Sum
use log2mem.Prelude.{ℕ, ◌+◌, List, u32}
use log2mem.Memory.{Mem, load, store}
use log2mem.Abi.{sizeof_counter, sizeof_label}
use log2mem.State.{Handle, Os, M, returned}
use log2mem.Init.{with_handle}
use log2mem.Element.{masked, element, strncpy, label_len, with_element}

-- `&g_log2mem->counters[idx]`, whose members are `value` and, 4 bytes on, `used`.
unfoldable pub counter_address : ℕ → Handle → Mem → ℕ
counter_address counterid h m = element h.counters sizeof_counter (masked counterid (load 4 36 m))

unfoldable pub label_address : ℕ → Handle → Mem → ℕ
label_address counterid h m = element h.counter_labels sizeof_label (masked counterid (load 4 36 m))

-- The atomic addition to an `int`, which wraps around.
unfoldable pub add_to_counter : ℕ → ℕ → Handle → Mem → Mem
add_to_counter counterid value_to_add h m =
    let a = counter_address counterid h m in store 4 a (u32 (load 4 a m + value_to_add)) m

unfoldable pub set_label : ℕ → List ℕ → Handle → Mem → Mem
set_label counterid src h m =
    store 4 (counter_address counterid h m + 4) 1 (strncpy (label_address counterid h m) 63 src m)

unfoldable pub counter_add : Os → ℕ → ℕ → M (Unit {0})
counter_add os counterid value_to_add = with_handle os tt (λ h s.
    with_element (load 4 36 s.mem)
      (returned tt (record s { mem = add_to_counter counterid value_to_add h s.mem })))

unfoldable pub counter_incr : Os → ℕ → M (Unit {0})
counter_incr os counterid = counter_add os counterid 1

-- `src` is the text without its NUL.
unfoldable pub counter_label : Os → ℕ → List ℕ → M (Unit {0})
counter_label os counterid src = with_handle os tt (λ h s.
    with_element (load 4 36 s.mem)
      (returned tt (record s { mem = set_label counterid src h s.mem })))
