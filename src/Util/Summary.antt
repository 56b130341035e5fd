-- ===== src/Util/Summary.antt =====
-- `print_summary` of util/log2memutil.c.
use log2mem.Prelude.{
  ℕ, ◌-◌, ◌==◌, bit_and, if◌then◌else◌, Option, none, some, List, [], ◌++◌, codes,
}
use log2mem.Memory.{Mem, load}
use log2mem.Abi.{
  sizeof_mm_header, sizeof_data_hdr, sizeof_row, sizeof_counter, sizeof_var_double, sizeof_var_int,
}
use log2mem.Config.{
  load_config, memlog_fileline, memlog_threadid, memlog_clocksource_mask, memlog_rdtsc,
  memlog_gettimeofday, memlog_clockgettime,
}
use log2mem.Element.{label_len}
use log2mem.Layout.{Layout, calculate_layout, calc_row_total_size, memlog_mm_header_size}
use log2mem.State.{Handle}
use log2mem.Create.{decimal}
use log2mem.Util.Run.{Run, done, ◌>>=◌}
use log2mem.Util.Format.{show_int, read_text}

-- The name of an option behind those that were printed before it.
with_delim : List ℕ → List ℕ → List ℕ
with_delim [] name = name
with_delim before name = before ++ codes "," ++ name

-- The names of the options, with commas between them.
unfoldable pub options_text : ℕ → List ℕ
unfolding with_delim
options_text options =
    let t1 = if bit_and options memlog_fileline == 0 then [] else codes "MEMLOG_FILE_LINE" in
    let t2 =
      if bit_and options memlog_threadid == 0
      then t1
      else with_delim t1 (codes "MEMLOG_THREADID") in
    let source = bit_and options memlog_clocksource_mask in
    if source == memlog_rdtsc
    then with_delim t2 (codes "MEMLOG_RDTSC")
    else if source == memlog_gettimeofday
    then with_delim t2 (codes "MEMLOG_GETTIMEOFDAY")
    else if source == memlog_clockgettime
    then with_delim t2 (codes "MEMLOG_CLOCKGETTIME")
    else t2

-- `"<name>: %d\n"` and `"<name>: %u\n"` or `%lu`.
unfoldable pub int_line : List ℕ → ℕ → List ℕ
int_line name n = name ++ codes ": " ++ show_int n ++ codes "\n"

unfoldable pub unsigned_line : List ℕ → ℕ → List ℕ
unsigned_line name n = name ++ codes ": " ++ decimal n ++ codes "\n"

unfoldable pub configuration_text : List ℕ → Mem → List ℕ
configuration_text created m =
    codes "Memmap configuration\n--------------------\n"
    ++ codes "created: "
    ++ created
    ++ codes "\noptions: "
    ++ options_text (load 4 32 m)
    ++ codes "\n"
    ++ int_line (codes "number of counters") (load 4 36 m)
    ++ int_line (codes "number of rows") (load 4 40 m)
    ++ codes "number of vars "
    ++ show_int (load 4 48 m)
    ++ codes "\n"
    ++ int_line (codes "row data size") (load 4 44 m)
    ++ unsigned_line (codes "row total size") (calc_row_total_size (load_config 32 m))
    ++ int_line (codes "next rowid") (load 4 28 m)

unfoldable pub architecture_text : Mem → List ℕ
architecture_text m =
    codes "\nMemmap architecture\n-------------------\n"
    ++ int_line (codes "version") (load 4 52 m)
    ++ int_line (codes "arch") (load 4 56 m)
    ++ codes "endian: "
    ++ (if bit_and (load 4 24 m) 1 == 0 then codes "big" else codes "little")
    ++ codes "\n"

unfoldable pub layout_text : Layout → List ℕ
layout_text l =
    codes "\nSection offsets & size\n----------------------\n"
    ++ unsigned_line (codes "header") 0
    ++ unsigned_line (codes "counters") l.counters_off
    ++ unsigned_line (codes "rows") l.rows_off
    ++ unsigned_line (codes "labels") l.counter_labels_off
    ++ unsigned_line (codes "double_vars") l.double_vars_off
    ++ unsigned_line (codes "int_vars") l.int_vars_off
    ++ unsigned_line (codes "memmap size") l.size

abbrev pub sizes_text : List ℕ
sizes_text =
    codes "\nFixed structure sizes\n---------------------\n"
    ++ int_line (codes "MEMLOG_MM_HEADER_SIZE") memlog_mm_header_size
    ++ int_line (codes "MEMLOG_LABEL_LEN") label_len
    ++ unsigned_line (codes "sizeof(log2mem_mm_header)") sizeof_mm_header
    ++ unsigned_line (codes "sizeof(log2mem_data_hdr)") sizeof_data_hdr
    ++ unsigned_line (codes "sizeof(log2mem_row)") sizeof_row
    ++ unsigned_line (codes "sizeof(log2mem_counter)") sizeof_counter
    ++ unsigned_line (codes "sizeof(log2mem_var_double)") sizeof_var_double
    ++ unsigned_line (codes "sizeof(log2mem_var_int)") sizeof_var_int

-- `page_size` is what `getpagesize` answers to `log2mem_calculate_layout`.
unfoldable pub print_summary : ℕ → ℕ → Option Handle → Mem → Run (List ℕ)
print_summary page_size size none m = done []
print_summary page_size size (some h) m = read_text (size - 60) 60 m >>= λ created. done (
    configuration_text created m
    ++ architecture_text m
    ++ layout_text (calculate_layout page_size (load_config 32 m))
    ++ sizes_text)
