-- ===== src/Layout.antt =====
-- `log2mem_calculate_layout` of liblog2mem/log2mem.c: where the sections of the memory map start.
pub mod Packed
use log2mem.Prelude.{ℕ, ◌+◌, ◌-◌, ◌*◌, ◌^◌, bit_and, u32, u64, sext}
use log2mem.Abi.{sizeof_row, sizeof_counter, sizeof_label, sizeof_var_double, sizeof_var_int}
use log2mem.Config.{Config}

-- `struct log2mem_layout`. The fields are bit patterns of `int`s.
pub record Layout : Type 0 where
  pub size : ℕ
  pub counters_off : ℕ
  pub rows_off : ℕ
  pub counter_labels_off : ℕ
  pub double_vars_off : ℕ
  pub int_vars_off : ℕ

abbrev pub memlog_mm_header_size : ℕ
memlog_mm_header_size = 256

-- The result is a `size_t`.
unfoldable pub calc_row_total_size : Config → ℕ
calc_row_total_size cfg = u64 (sizeof_row + cfg.row_len)

-- `(n + 8 - 1) & ~(8 - 1)` in `size_t`
unfoldable pub align8 : ℕ → ℕ
align8 n = bit_and (u64 (n + 8 - 1)) (2 ^ 64 - 8)

-- `(size + ps - 1) & ~(ps - 1)` in `int`
unfoldable pub align_page : ℕ → ℕ → ℕ
align_page ps size = bit_and (u32 (size + ps - 1)) (u32 (2 ^ 32 - ps))

-- `ps` is the result of `getpagesize`.
unfoldable pub calculate_layout : ℕ → Config → Layout
unfolding calc_row_total_size align8 align_page
calculate_layout ps cfg =
    let counters_off : ℕ = memlog_mm_header_size in
    let rows_off =
      u32 (u64 (sext counters_off + align8 (u64 (cfg.num_counters * sizeof_counter)))) in
    let counter_labels_off =
      u32 (u64 (sext rows_off + align8 (u64 (cfg.num_rows * calc_row_total_size cfg)))) in
    let double_vars_off =
      u32 (u64 (sext counter_labels_off + align8 (u64 (cfg.num_counters * sizeof_label)))) in
    let int_vars_off =
      u32 (u64 (sext double_vars_off + align8 (u64 (cfg.num_vars * sizeof_var_double)))) in
    let size = u32 (u64 (sext int_vars_off + u64 (cfg.num_vars * sizeof_var_int))) in
    record {
      size = align_page ps size;
      counters_off = counters_off;
      rows_off = rows_off;
      counter_labels_off = counter_labels_off;
      double_vars_off = double_vars_off;
      int_vars_off = int_vars_off;
    }
