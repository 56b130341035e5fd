-- ===== src/Util/Rows/Calls.antt =====
-- What `log2mem_write` logs in one process, the tool prints in another.
use log2mem.Prelude.{ℕ, zero, suc, ◌+◌, ◌-◌, ◌^◌, ◌≤◌, ◌<◌, ◌≡◌, ◌∙◌, ap, inl, inr, arith}
use log2mem.Prelude.{
  List, [], ◌∷◌, ◌++◌, length, Option, none, some, Bool-cases, bit_and, leb, ◌==◌,
}
use Prim.Native.Nat.{min}
use mathlib.Core.Path.{subst}
use log2mem.Memory.{Mem, load}
use log2mem.Memory.Frame.{length-le_bytes}
use log2mem.Config.{Config, memlog_fileline}
use log2mem.State.{Handle, State, returned}
use log2mem.Ready.Fresh.{IsFresh}
use log2mem.Ready.Index.{IsPowerOfTwo-pos}
use log2mem.Row.Item.{Item, append_item, item_size, items_size}
use log2mem.Row.Slot.{slot, slot_of}
use log2mem.Row.Stamp.{place_items, filename_item, lineno_item}
use log2mem.Ring.{empty_log, Represents}
use log2mem.Ready.{IsSetUp}
use log2mem.Ring.Recent.{start}
use log2mem.Ring.Append.{string_item}
use log2mem.Ring.Run.{Call, AreCalls, call_items, write_log, writes, writes-Ran}
use log2mem.Ring.History.{IsHistory, Agrees, write_log-IsHistory, empty-IsHistory}
use log2mem.Start.{fresh-Represents}
use log2mem.Util.Run.{done}
use log2mem.Util.Format.{Libc, Globals}
use log2mem.Util.Item.Show.{c_string-HasNul, IsShowable, AreShowable}
use log2mem.Util.Item.{filename, lineno, tag_of, delim_before}
use log2mem.Util.Rows.{print_rows}
use log2mem.Util.Rows.Show.{entry_line}
use log2mem.Util.Rows.Recent.{lines_of, print_rows-eq-recent}

append-AreShowable :
    (xs : List Item) (x : Item) → AreShowable xs → IsShowable x → AreShowable (xs ++ x ∷ [])
append-AreShowable [] x ok one = (one, tt)
append-AreShowable (y ∷ xs) x ok one = (ok.0, append-AreShowable xs x ok.1 one)

append_item-AreShowable :
    (n : ℕ) (xs : List Item) (x : Item)
    → AreShowable xs
    → IsShowable x
    → AreShowable (append_item n xs x)
append_item-AreShowable n xs x ok one = elim (Bool-cases (leb (items_size xs + item_size x) n)) [
  | inl p ↦ rw p (append-AreShowable xs x ok one)
  | inr p ↦ rw p ok
]

place_items-AreShowable :
    (c : Config) (fn : Option (List ℕ)) (line : ℕ) → AreShowable (place_items c fn line)
unfolding place_items log2mem.Util.Item.tag_of
place_items-AreShowable c none line = tt
place_items-AreShowable c (some f) line =
    elim (Bool-cases (bit_and c.options memlog_fileline == 0)) [
      | inl p ↦ rw p tt
      | inr p ↦ rw p (
          append_item-AreShowable c.row_len _ (lineno_item line)
            (append_item-AreShowable c.row_len [] (filename_item f) tt
              (record { wide = omega arith; nul = c_string-HasNul f }))
            (record { wide = omega (arith, length-le_bytes 4 line); nul = tt }))
    ]

call_items-AreShowable : (c : Config) (call : Call) → AreShowable (call_items c call)
unfolding log2mem.Util.Item.tag_of
call_items-AreShowable c call =
    append_item-AreShowable c.row_len (place_items c call.filename call.lineno)
      (string_item call.text) (place_items-AreShowable c call.filename call.lineno)
      (record { wide = omega arith; nul = c_string-HasNul call.text })

-- The items of row `k`.
unfoldable pub nth_items : Config → List Call → ℕ → List Item
nth_items c [] k = []
nth_items c (call ∷ calls) zero = call_items c call
nth_items c (call ∷ calls) (suc k) = nth_items c calls k

nth_items-AreShowable : (c : Config) (calls : List Call) (k : ℕ) → AreShowable (nth_items c calls k)
unfolding nth_items
nth_items-AreShowable c [] k = tt
nth_items-AreShowable c (call ∷ calls) zero = call_items-AreShowable c call
nth_items-AreShowable c (call ∷ calls) (suc k) = nth_items-AreShowable c calls k

nth_items-Agrees :
    (c : Config) (hist : ℕ → List Item) (calls : List Call) (n : ℕ)
    → ((j : ℕ) → hist (n + j) ≡ nth_items c calls j)
    → Agrees c hist n calls
unfolding nth_items
nth_items-Agrees c hist [] n e = tt
nth_items-Agrees c hist (call ∷ calls) n e = (
  ap hist (omega arith) ∙ e 0,
  nth_items-Agrees c hist calls (suc n) (λ j. ap hist (omega arith) ∙ e (suc j)),
)

-- A map whose log the calls have made.
module _ (size fuel : ℕ) (lc : Libc) (g : Globals) {c : Config} {h : Handle} {m : Mem}
    (u : IsSetUp c h) (calls : List Call) (v : Represents c h m (write_log c empty_log calls))
    (word : length calls < 2 ^ 32) (inside : h.counter_labels ≤ size) (small : size < 2 ^ 31)
    (enough : c.row_len < fuel) where
  -- The line of the `k`-th call, with the time and the thread in its row.
  abbrev pub call_line : ℕ → List ℕ
  call_line k =
      entry_line lc g c.options (record { id = k; items = nth_items c calls k })
        (load 8 (slot c h (slot_of c k) + 8) m) (load 4 (slot c h (slot_of c k)) m)

  history : IsHistory c (length calls) (nth_items c calls) (write_log c empty_log calls)
  history =
      subst (λ t. IsHistory c t (nth_items c calls) (write_log c empty_log calls)) (omega arith)
        (write_log-IsHistory calls (IsPowerOfTwo-pos u.rounded.rows) (omega arith)
          (nth_items-Agrees c (nth_items c calls) calls 0
            (λ j. ap (nth_items c calls) (omega arith)))
          (empty-IsHistory c (nth_items c calls)))

  -- `print_rows` shows the last `num_rows` of the calls, in their order.
  pub print_rows-eq-calls :
      print_rows lc g size fuel (some h) m
      ≡ done (lines_of call_line (min (length calls) c.num_rows) (length calls - c.num_rows))
  print_rows-eq-calls =
      print_rows-eq-recent u v history word size inside small lc g fuel enough
        (λ k lt. nth_items-AreShowable c calls k)

-- After fewer than 2 ^ 32 calls of `log2mem_write` on a fresh process, whose texts and file names fit
-- a row's size, `print_rows`, in any mode and with enough rounds for a row, shows the last `num_rows`
-- calls in their order and nothing else: for each its line with its number as the id, the time and
-- the thread in its row, the place if it was logged, and the text if it had room. The map fits an
-- `int` and reaches at least to the labels.
pub writes-print_rows :
    (size fuel : ℕ) (lc : Libc) (g : Globals) {c : Config} {h : Handle} {n : ℕ} (s : State)
    (f : IsFresh c h n s) (calls : List Call)
    → AreCalls calls
    → length calls < 2 ^ 32
    → h.counter_labels ≤ size
    → size < 2 ^ 31
    → c.row_len < fuel
    → (s' : State) × (writes calls s ≡ returned tt s')
      × (print_rows lc g size fuel (some h) s'.mem
          ≡ done (
              lines_of
                (λ k.
                  entry_line lc g c.options
                    (record { id = k; items = nth_items c calls k })
                    (load 8 (slot c h (slot_of c k) + 8) s'.mem)
                    (load 4 (slot c h (slot_of c k)) s'.mem))
                (min (length calls) c.num_rows)
                (length calls - c.num_rows)))
writes-print_rows size fuel lc g s f calls ok word inside small enough =
    let ran = writes-Ran s empty_log 0 calls f.ready (fresh-Represents f) start ok (omega arith) in
    (
      ran.after,
      ran.returns,
      print_rows-eq-calls size fuel lc g f.ready.set_up calls ran.represents word inside small
          enough,
    )
