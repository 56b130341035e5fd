-- ===== src/Row/Slot.antt =====
-- Where the rows stand in a ready process: each in its own part of the rows' section.
use log2mem.Prelude.{
  ℕ, ◌+◌, ◌*◌, ◌%◌, ◌^◌, ◌≤◌, ◌<◌, ◌≡◌, ◌∙◌, ◌⊎◌, ap, arith, u32, u64, sext, bit_and, sub32,
}
use native.Mathlib.Nat.{mod-lt}
use log2mem.Memory.{Mem, load}
use log2mem.Config.{Config}
use log2mem.Layout.{calc_row_total_size}
use log2mem.State.{Handle}
use log2mem.Ready.{IsSetUp, IsMapped, HasConfig}
use log2mem.Ready.Index.{mask_index, IsPowerOfTwo-pos, num_rows_at}
use log2mem.Element.Index.{cells-le, cells_apart}
use log2mem.Row.Log.{row_address}

-- The address of the slot `i`.
abbrev pub slot : Config → Handle → ℕ → ℕ
slot c h i = h.rows + i * (24 + c.row_len)

-- The slot of a row id.
abbrev pub slot_of : Config → ℕ → ℕ
slot_of c rowid = rowid % c.num_rows

-- A slot lies behind the counters and before the labels.
pub slot_bounds :
    {c : Config} {h : Handle} (i : ℕ)
    → IsMapped c h
    → i < c.num_rows
    → (256 ≤ slot c h i)
      × (256 + c.num_counters * 8 ≤ slot c h i)
      × (slot c h i + 24 + c.row_len ≤ h.counter_labels)
      × (h.counter_labels < 2 ^ 31)
slot_bounds {c} i v lt = omega (
  arith,
  cells-le i c.num_rows (24 + c.row_len) lt,
  v.counters_at,
  v.rows_at,
  v.labels_after,
  v.doubles_at,
  v.ints_at,
  v.ints_end,
)

-- Two slots do not overlap.
pub slots_apart :
    (c : Config) (h : Handle) (i j : ℕ)
    → (i ≡ j → ⊥)
    → (slot c h i + (24 + c.row_len) ≤ slot c h j) ⊎ (slot c h j + (24 + c.row_len) ≤ slot c h i)
slots_apart c h i j ne = omega (arith, cells_apart h.rows (24 + c.row_len) i j ne)

sext_of_small : (x : ℕ) → x < 2 ^ 31 → sext (u32 x) ≡ x
sext_of_small x h = ground arith

-- In a map that is set up, the address that the code computes for a row id is that of the slot of
-- the id's remainder by the number of rows.
pub row_address_lem :
    {c : Config} {h : Handle} {m : Mem} (rowid : ℕ)
    → IsSetUp c h
    → HasConfig c m
    → row_address h m rowid ≡ slot c h (slot_of c rowid)
unfolding row_address calc_row_total_size
row_address_lem {c} {h} {m} rowid u e =
    let idx : bit_and rowid (sub32 (load 4 40 m) 1) ≡ rowid % c.num_rows =
      ap (λ n. bit_and rowid (sub32 n 1)) (num_rows_at e) ∙ mask_index rowid u.rounded.rows in
    let below : rowid % c.num_rows < c.num_rows = mod-lt rowid (IsPowerOfTwo-pos u.rounded.rows) in
    let fits = slot_bounds (rowid % c.num_rows) u.is_mapped below in
    let total : u32 (u64 (24 + c.row_len)) ≡ 24 + c.row_len = omega arith in
    rw (idx, e.loads, total)
      (ap (λ t. h.rows + t) (sext_of_small (rowid % c.num_rows * (24 + c.row_len)) (omega arith)))
