-- ===== src/Tests/Counters.antt =====
-- The theorems on the counters at the small process.
use log2mem.Prelude.{ℕ, ◌+◌, ◌-◌, ◌^◌, ◌<◌, ◌≡◌, arith, List, [], ◌∷◌, u32}
use log2mem.Memory.{load}
use log2mem.State.{State, returned}
use log2mem.Ready.{IsReady}
use log2mem.Counter.Bank.{counter_cell}
use log2mem.Counter.Sum.{counter_adds, total, counter_adds-total}
use log2mem.Start.{no_counts}
use log2mem.Tests.{small_os, small_handle, small_state, small_rounded, small_IsReady, small_HasBank}

abbrev calls : List (ℕ × ℕ)
calls = (0, 5) ∷ (1, 7) ∷ (2, 2 ^ 32 - 1) ∷ []

counter_adds-total_example :
    (s' : State) × (counter_adds small_os calls small_state ≡ returned tt s')
    × IsReady small_rounded small_handle s'
    × ((i : ℕ)
        → i < small_rounded.num_counters
        → load 4 (counter_cell small_handle i) s'.mem ≡ u32 (0 + total small_rounded i calls))
counter_adds-total_example =
    counter_adds-total small_os small_state no_counts calls (λ i. omega arith) small_IsReady
      small_HasBank
