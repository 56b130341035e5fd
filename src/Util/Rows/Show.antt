-- ===== src/Util/Rows/Show.antt =====
-- `print_rows` of a map that holds a log shows the entries, from the lowest id on.
use log2mem.Prelude.{
  ℕ, zero, suc, ◌+◌, ◌^◌, ◌≤◌, ◌<◌, ◌≡◌, refl, inl, inr, arith, ◌==◌, leb, if◌then◌else◌, false,
  Bool-cases,
}
use log2mem.Prelude.{List, [], ◌∷◌, ◌++◌, length, codes, u32, u64, some, ltb_of_le}
use mathlib.Core.Path.{subst}
use native.Mathlib.Nat.{mod-lt}
use log2mem.Memory.{Mem, load}
use log2mem.Config.{Config}
use log2mem.Layout.{calc_row_total_size}
use log2mem.State.{Handle}
use log2mem.Ready.{IsSetUp}
use log2mem.Ready.Index.{mask_index, num_rows_at, options_at, IsPowerOfTwo-pos}
use log2mem.Row.Item.{Item, Holds, items_size}
use log2mem.Row.Slot.{slot, slot_of, slot_bounds}
use log2mem.Ring.{Entry, Log, Represents}
use log2mem.Util.Run.{done}
use log2mem.Util.Format.{Libc, Globals}
use log2mem.Util.Item.Show.{items_text, AreShowable, show_items-eq-items_text}
use log2mem.Util.Rows.{scan_address, lowest_rowid, row_head, show_row, show_rows, print_rows}

-- The lowest id of `count` entries from index `i` on, and `lowest`.
unfoldable pub lowest_of : ℕ → ℕ → ℕ → (ℕ → Entry) → ℕ
lowest_of zero i lowest f = lowest
lowest_of (suc count) i lowest f =
    lowest_of count (i + 1) (if leb (f i).id lowest then (f i).id else lowest) f

-- The line of a row that holds an entry, with its time and thread; an empty row has none.
unfoldable pub entry_line : Libc → Globals → ℕ → Entry → ℕ → ℕ → List ℕ
entry_line lc g options e ts tid =
    if items_size e.items == 0
    then []
    else row_head lc g options e.id ts tid ++ items_text lc g false e.items ++ codes "\n"

-- The lines of `count` rows, from the slot of id `next` on.
unfoldable pub lines_from : Config → (ℕ → List ℕ) → ℕ → ℕ → List ℕ
lines_from c line zero next = []
lines_from c line (suc count) next =
    line (slot_of c next) ++ lines_from c line count (u32 (next + 1))

length-le-items_size : (xs : List Item) → length xs ≤ items_size xs
length-le-items_size [] = omega arith
length-le-items_size (x ∷ xs) = omega (arith, length-le-items_size xs)

module _ {c : Config} {h : Handle} (u : IsSetUp c h) {m : Mem} {l : Log} (v : Represents c h m l)
    (size : ℕ) (inside : h.counter_labels ≤ size) (small : size < 2 ^ 31) where
  address : (i : ℕ) → i < c.num_rows → scan_address h m i ≡ slot c h i
  unfolding scan_address calc_row_total_size
  address i lt =
      let fits = slot_bounds i u.is_mapped lt in
      let total : u32 (u64 (24 + c.row_len)) ≡ 24 + c.row_len = omega (arith, u.row_len_fits) in
      rw (v.config.loads, total) (omega (arith, fits))

  room : (i : ℕ) → i < c.num_rows → slot c h i + 24 + c.row_len ≤ size
  room i lt = omega (arith, slot_bounds i u.is_mapped lt)

  scan :
      (count i lowest : ℕ)
      → i + count ≤ c.num_rows
      → lowest_rowid h size count i lowest m ≡ done (lowest_of count i lowest l.entry)
  unfolding lowest_rowid lowest_of
  scan zero i lowest p = refl
  scan (suc count) i lowest p =
      rw
        (
          address i (omega arith),
          ltb_of_le size (slot c h i + 24) (omega (arith, room i (omega arith))),
          (v.entries i (omega arith)).id,
        )
        (scan count (i + 1) _ (omega arith))

  -- The line of slot `i`, with the time and the thread that the map has for it.
  abbrev pub slot_line : Libc → Globals → ℕ → List ℕ
  slot_line lc g i =
      entry_line lc g c.options (l.entry i) (load 8 (slot c h i + 8) m) (load 4 (slot c h i) m)

  module _ (lc : Libc) (g : Globals) (fuel : ℕ) (enough : c.row_len < fuel)
      (showable : (i : ℕ) → i < c.num_rows → AreShowable (l.entry i).items) where
    row_line :
        (i : ℕ) → i < c.num_rows → show_row lc g size fuel (slot c h i) m ≡ done (slot_line lc g i)
    unfolding show_row entry_line
    row_line i lt =
        let e = v.entries i lt in
        elim (Bool-cases (items_size (l.entry i).items == 0)) [
          | inl p ↦ rw (e.row.datalen, p) refl
          | inr p ↦
              rw
                (
                  e.row.datalen,
                  p,
                  options_at v.config,
                  e.id,
                  show_items-eq-items_text lc g size fuel (slot c h i) 0 false (l.entry i).items m
                      (omega (arith, e.row.datalen))
                      (subst (λ t. Holds m t (l.entry i).items) (omega arith) e.row.payload)
                      (showable i lt)
                      (omega (arith, length-le-items_size (l.entry i).items, e.room))
                      (omega (arith, e.room, room i lt)) small,
                )
                refl
        ]

    rows_lines :
        (count next : ℕ)
        → show_rows lc g h size fuel count next m ≡ done (lines_from c (slot_line lc g) count next)
    unfolding show_rows lines_from
    rows_lines zero next = refl
    rows_lines (suc count) next =
        let i : ℕ = slot_of c next in
        let lt : i < c.num_rows = mod-lt next (IsPowerOfTwo-pos u.rounded.rows) in
        rw
          (
            num_rows_at v.config,
            mask_index next u.rounded.rows,
            address i lt,
            ltb_of_le size (slot c h i + 24) (omega (arith, room i lt)),
            row_line i lt,
            rows_lines count (u32 (next + 1)),
          )
          refl

    -- `print_rows`, on a map that is set up and holds a log of showable items, ends within as many
    -- rounds per row as the row has bytes and one more; it shows each slot once, in the order that
    -- starts at the lowest id: a line with the entry's items for each that holds any.
    pub print_rows-eq-lines :
        print_rows lc g size fuel (some h) m
        ≡ done
            (lines_from c (slot_line lc g) c.num_rows (lowest_of c.num_rows 0 0xFFFFFFFF l.entry))
    unfolding print_rows
    print_rows-eq-lines =
        rw (num_rows_at v.config, scan c.num_rows 0 0xFFFFFFFF (omega arith))
          (rows_lines c.num_rows (lowest_of c.num_rows 0 0xFFFFFFFF l.entry))
