-- ===== src/Util/Shown/Rows.antt =====
-- `print_rows` and its loop over the items print what is expected.
use log2mem.Prelude.{ℕ, ◌+◌, ◌-◌, ◌^◌, ◌≤◌, ◌<◌, ◌≡◌, ◌∙◌, ap, Bool, some, List, length}
use Prim.Native.Nat.{min}
use log2mem.Memory.{Mem, load}
use log2mem.Config.{Config}
use log2mem.State.{Handle, State, returned}
use log2mem.Ready.Fresh.{IsFresh}
use log2mem.Row.Item.{Item, Holds, items_size}
use log2mem.Row.Slot.{slot, slot_of}
use log2mem.Ring.Run.{Call, AreCalls, writes}
use log2mem.Util.Run.{done}
use log2mem.Util.Format.{Libc, Globals}
use log2mem.Util.Item.{show_items}
use log2mem.Util.Item.Show.{AreShowable, show_items-eq-items_text}
use log2mem.Util.Rows.{print_rows}
use log2mem.Util.Rows.Recent.{lines_of}
use log2mem.Util.Rows.Calls.{nth_items, writes-print_rows}
use log2mem.Util.Shown.{shown_items, shown_line}
use log2mem.Util.Shown.Same.{items_text_lem, entry_line_lem}

-- Over a row whose payload holds some showable items the loop ends within as many rounds as there
-- are items and one more, and prints each item by its kind, with the delimiter before each item that
-- another one than the place of the call comes before; from offset `off` on, it prints the items from
-- there on.
pub show_items-eq-shown_items :
    (lc : Libc) (g : Globals) (size fuel row off : ℕ) (want : Bool) (xs : List Item) (m : Mem)
    → load 4 (row + 20) m ≡ off + items_size xs
    → Holds m (row + 24 + off) xs
    → AreShowable xs
    → length xs < fuel
    → row + 24 + off + items_size xs ≤ size
    → size < 2 ^ 31
    → show_items lc g size fuel row off want m ≡ done (shown_items lc g want xs)
show_items-eq-shown_items lc g size fuel row off want xs m len h ok enough inside small =
    show_items-eq-items_text lc g size fuel row off want xs m len h ok enough inside small
    ∙ ap done (items_text_lem lc g want xs)

-- After fewer than 2 ^ 32 calls of `log2mem_write` on a fresh process, whose texts and file names fit
-- a row's size, `print_rows`, in any mode and with enough rounds for a row, prints the last `num_rows`
-- calls in their order and nothing else: for each that has items a line with its number as the id, the
-- time and the thread in its row, the place if it was logged, and the text if it had room. The map
-- fits an `int` and reaches at least to the labels.
pub print_rows-eq-shown_line :
    (size fuel : ℕ) (lc : Libc) (g : Globals) {c : Config} {h : Handle} {n : ℕ} (s : State)
    (f : IsFresh c h n s) (calls : List Call)
    → AreCalls calls
    → length calls < 2 ^ 32
    → h.counter_labels ≤ size
    → size < 2 ^ 31
    → c.row_len < fuel
    → (s' : State) × (writes calls s ≡ returned tt s')
      × (print_rows lc g size fuel (some h) s'.mem
          ≡ done (
              lines_of
                (λ k.
                  shown_line lc g c.options k
                    (nth_items c calls k)
                    (load 8 (slot c h (slot_of c k) + 8) s'.mem)
                    (load 4 (slot c h (slot_of c k)) s'.mem))
                (min (length calls) c.num_rows)
                (length calls - c.num_rows)))
print_rows-eq-shown_line size fuel lc g {c} {h} s f calls ok word inside small enough =
    let printed = writes-print_rows size fuel lc g s f calls ok word inside small enough in
    (
      printed.0,
      printed.1,
      printed.2
          ∙ ap
              (λ (line : ℕ → List ℕ).
                done (lines_of line (min (length calls) c.num_rows) (length calls - c.num_rows)))
              (λ i k.
                entry_line_lem lc g c.options k (nth_items c calls k)
                  (load 8 (slot c h (slot_of c k) + 8) printed.0.mem)
                  (load 4 (slot c h (slot_of c k)) printed.0.mem) i),
    )
