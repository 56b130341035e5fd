-- ===== src/Layout/Packed.antt =====
-- The sections follow one another without overlap, at 8-byte boundaries, in a whole number of pages.
use log2mem.Prelude.{
  ℕ, ◌+◌, ◌-◌, ◌*◌, ◌/◌, ◌%◌, ◌^◌, ◌≤◌, ◌<◌, ◌≡◌, ◌∙◌, sym, ap, refl, arith, bit_and,
}
use log2mem.Prelude.{u32, u64, sext, bit_and-high}
use mathlib.Core.Path.{ap₂}
use native.Mathlib.Nat.{one-le-pow, mod-lt, mul-mod_right, div-add-mod, pow-le-pow_right}
use log2mem.Config.{Config, IsConfig}
use log2mem.Layout.{Layout, calculate_layout, align8, align_page, calc_row_total_size}

-- What the documentation of `getpagesize` promises on the platforms that the library supports.
pub record IsPageSize (ps : ℕ) : Type 0 where
  pub exponent : ℕ
  pub is_power : ps ≡ 2 ^ exponent
  pub small : exponent ≤ 30

-- The sections, their padding and a page stay below 2 ^ 31, so no `int` of the layout overflows.
abbrev pub Fits : ℕ → Config → Type 0
Fits ps c =
    256 + c.num_counters * 72 + c.num_rows * (24 + c.row_len) + c.num_vars * 152 + (ps + 16)
    < 2 ^ 31

-- Where a section ends, with its elements of `size` bytes, and where the next one starts.
pub record IsPacked (ps : ℕ) (c : Config) (l : Layout) : Type 0 where
  pub counters_start : l.counters_off ≡ 256
  pub counters_end : l.rows_off ≡ l.counters_off + c.num_counters * 8
  pub rows_end : l.rows_off + c.num_rows * (24 + c.row_len) ≤ l.counter_labels_off
  pub rows_padding : l.counter_labels_off < l.rows_off + c.num_rows * (24 + c.row_len) + 8
  pub labels_end : l.double_vars_off ≡ l.counter_labels_off + c.num_counters * 64
  pub doubles_end : l.int_vars_off ≡ l.double_vars_off + c.num_vars * 80
  pub ints_end : l.int_vars_off + c.num_vars * 72 ≤ l.size
  pub page_padding : l.size < l.int_vars_off + c.num_vars * 72 + ps
  pub aligned :
      (l.rows_off % 8 ≡ 0)
      × (l.counter_labels_off % 8 ≡ 0)
      × (l.double_vars_off % 8 ≡ 0)
      × (l.int_vars_off % 8 ≡ 0)
  pub whole_pages : l.size % ps ≡ 0
  pub size_fits : l.size < 2 ^ 31

align8_lem : (n : ℕ) → n < 2 ^ 62 → align8 n ≡ (n + 7) - (n + 7) % 8
unfolding align8
align8_lem n h = omega (arith, bit_and-high 3 64 (u64 (n + 8 - 1)) (omega arith) (omega arith))

align_page_lem :
    (ps n : ℕ)
    → IsPageSize ps
    → n + ps < 2 ^ 32
    → align_page ps n ≡ (n + (ps - 1)) - (n + (ps - 1)) % ps
unfolding align_page
align_page_lem ps n p h =
    ap₂ bit_and {x = u32 (n + ps - 1)} {y = x} {u = u32 (2 ^ 32 - ps)} {v = 2 ^ 32 - 2 ^ p.exponent}
      (omega (arith, p.is_power, pos)) (omega (arith, p.is_power, pos, small))
    ∙ bit_and-high p.exponent 32 x (omega (arith, p.small)) (omega (arith, p.is_power, pos))
    ∙ ap (λ t. x - x % t) (sym p.is_power)
  where
    x : ℕ
    x = n + (ps - 1)

    pos : 1 ≤ 2 ^ p.exponent
    pos = one-le-pow p.exponent 2 (omega arith)

    small : 2 ^ p.exponent ≤ 2 ^ 30
    small = pow-le-pow_right {n = 2} (omega arith) {i = p.exponent} {j = 30} p.small

IsPageSize-pos : (ps : ℕ) → IsPageSize ps → 0 < ps
IsPageSize-pos ps p = omega (arith, p.is_power, one-le-pow p.exponent 2)

round_down-mod : (n k : ℕ) → (n - n % k) % k ≡ 0
round_down-mod n k = ap (λ t. t % k) multiple ∙ mul-mod_right k (n / k)
  where
    multiple : n - n % k ≡ k * (n / k)
    multiple = omega (arith, div-add-mod n k)

-- One step of the layout, where it does not overflow.
next_off :
    (off n : ℕ)
    → off + n + 8 < 2 ^ 31
    → u32 (u64 (sext off + align8 (u64 n))) ≡ off + ((n + 7) - (n + 7) % 8)
next_off off n h = ground (arith, align8_lem (u64 n))

last_off : (off n : ℕ) → off + n < 2 ^ 31 → u32 (u64 (sext off + u64 n)) ≡ off + n
last_off off n h = ground arith

module _ (ps : ℕ) (c : Config) (p : IsPageSize ps) (v : IsConfig c) (fits : Fits ps c) where
  abbrev l : Layout
  l = calculate_layout ps c

  abbrev rows_bytes : ℕ
  rows_bytes = c.num_rows * (24 + c.row_len)

  row_total_eq : calc_row_total_size c ≡ 24 + c.row_len
  unfolding calc_row_total_size
  row_total_eq = omega (arith, v.row_len_fit)

  rows_off_eq : l.rows_off ≡ 256 + c.num_counters * 8
  unfolding calculate_layout
  rows_off_eq = next_off 256 (c.num_counters * 8) (omega arith) ∙ omega arith

  labels_off_eq : l.counter_labels_off ≡ l.rows_off + ((rows_bytes + 7) - (rows_bytes + 7) % 8)
  unfolding calculate_layout
  labels_off_eq =
      ap (λ t. u32 (u64 (sext l.rows_off + align8 (u64 (c.num_rows * t))))) row_total_eq
      ∙ next_off l.rows_off rows_bytes (omega (arith, rows_off_eq))

  labels_small : l.counter_labels_off + c.num_counters * 64 + c.num_vars * 152 + (ps + 8) < 2 ^ 31
  labels_small = omega (arith, rows_off_eq, labels_off_eq)

  labels_room : l.counter_labels_off + c.num_counters * 64 + 8 < 2 ^ 31
  labels_room = omega (arith, labels_small)

  doubles_off_eq : l.double_vars_off ≡ l.counter_labels_off + c.num_counters * 64
  unfolding calculate_layout
  doubles_off_eq = next_off l.counter_labels_off (c.num_counters * 64) labels_room ∙ omega arith

  doubles_small : l.double_vars_off + c.num_vars * 152 + (ps + 8) < 2 ^ 31
  doubles_small = omega (arith, labels_small, doubles_off_eq)

  doubles_room : l.double_vars_off + c.num_vars * 80 + 8 < 2 ^ 31
  doubles_room = omega (arith, doubles_small)

  ints_off_eq : l.int_vars_off ≡ l.double_vars_off + c.num_vars * 80
  unfolding calculate_layout
  ints_off_eq = next_off l.double_vars_off (c.num_vars * 80) doubles_room ∙ omega arith

  abbrev used : ℕ
  used = l.int_vars_off + c.num_vars * 72

  used_small : used + ps < 2 ^ 31
  used_small = omega (arith, doubles_small, ints_off_eq)

  used_room : l.int_vars_off + c.num_vars * 72 < 2 ^ 31
  used_room = omega (arith, used_small)

  used_word : used + ps < 2 ^ 32
  used_word = omega (arith, used_small)

  page_room : (used + (ps - 1)) % ps < ps
  page_room = mod-lt (used + (ps - 1)) (IsPageSize-pos ps p)

  counters_off_eq : l.counters_off ≡ 256
  unfolding calculate_layout
  counters_off_eq = refl

  size_eq : l.size ≡ (used + (ps - 1)) - (used + (ps - 1)) % ps
  unfolding calculate_layout
  size_eq =
      ap (align_page ps) (last_off l.int_vars_off (c.num_vars * 72) used_room)
      ∙ align_page_lem ps used p used_word

  -- For a configuration whose sections, padding and a page fit an `int`, each section starts where
  -- the one before it ends (the labels at the next 8-byte boundary), every section is aligned to 8
  -- bytes, and the size is the least whole number of pages that holds them.
  pub calculate_layout-IsPacked : IsPacked ps c (calculate_layout ps c)
  calculate_layout-IsPacked = record {
    counters_start = counters_off_eq;
    counters_end = omega (arith, rows_off_eq, counters_off_eq);
    rows_end = omega (arith, labels_off_eq);
    rows_padding = omega (arith, labels_off_eq);
    labels_end = doubles_off_eq;
    doubles_end = ints_off_eq;
    ints_end = omega (arith, size_eq, page_room);
    page_padding = omega (arith, size_eq, page_room);
    aligned = omega (arith, rows_off_eq, labels_off_eq, doubles_off_eq, ints_off_eq);
    whole_pages = ap (λ t. t % ps) size_eq ∙ round_down-mod (used + (ps - 1)) ps;
    size_fits = omega (arith, size_eq, used_small);
  }
