-- ===== src/Util/Rows.antt =====
-- `print_rows` of util/log2memutil.c: the scan for the lowest id, and the rows from there on.
pub mod Show
pub mod Recent
pub mod Calls
pub mod Terse
use log2mem.Prelude.{
  ℕ, zero, suc, ◌+◌, ◌-◌, ◌*◌, ◌==◌, ltb, leb, bit_and, if◌then◌else◌, Bool, true, false, Option,
  none, some, List, [], ◌∷◌, ◌++◌, codes, u32, u64, sub32,
}
use log2mem.Memory.{Mem, load}
use log2mem.Config.{
  load_config, memlog_threadid, memlog_clocksource_mask, memlog_rdtsc, memlog_gettimeofday,
  memlog_clockgettime,
}
use log2mem.Layout.{calc_row_total_size}
use log2mem.State.{Handle}
use log2mem.Create.{decimal, pad_left}
use log2mem.Time.{ts_to_timespec, ts_to_timeval}
use log2mem.Row.{row_id, row_ts, row_datalen}
use log2mem.Util.Run.{Run, done, fault, ◌>>=◌}
use log2mem.Util.Format.{Libc, Globals, show_int, show_clock}
use log2mem.Util.Item.{show_items}

-- `rowstart+i*row_total_size`, with the product in `unsigned int`.
unfoldable pub scan_address : Handle → Mem → ℕ → ℕ
scan_address h m i = u64 (h.rows + u32 (i * u32 (calc_row_total_size (load_config 32 m))))

-- The scan of `count` rows from row `i` on.
unfoldable pub lowest_rowid : Handle → ℕ → ℕ → ℕ → ℕ → Mem → Run ℕ
lowest_rowid h size zero i lowest m = done lowest
lowest_rowid h size (suc count) i lowest m =
    let r = scan_address h m i in
    let id = load 4 (row_id r) m in
    let rest = lowest_rowid h size count (i + 1) (if leb id lowest then id else lowest) m in
    if ltb size (r + 24) then fault else rest

-- The time of a row, by the clock source.
unfoldable pub show_ts : Libc → ℕ → ℕ → List ℕ
show_ts lc options ts =
    let source = bit_and options memlog_clocksource_mask in
    let tval = ts_to_timeval ts in
    let tspec = ts_to_timespec ts in
    if source == memlog_rdtsc
    then decimal ts ++ codes " "
    else if source == memlog_gettimeofday
    then show_clock (lc.localtime tval.seconds) ++ pad_left 6 (decimal tval.fraction) ++ codes " "
    else if source == memlog_clockgettime
    then show_clock (lc.localtime tspec.seconds) ++ pad_left 9 (decimal tspec.fraction) ++ codes " "
    else []

-- What stands before the items: the id, the time and the thread.
unfoldable pub row_head : Libc → Globals → ℕ → ℕ → ℕ → ℕ → List ℕ
row_head lc g options id ts tid =
    let thread =
      (if bit_and options memlog_threadid == 0
        then []
        else codes "[" ++ show_int tid ++ codes "] ") in
    if g.terse then [] else show_int id ++ codes " " ++ show_ts lc options ts ++ thread

unfoldable pub show_row : Libc → Globals → ℕ → ℕ → ℕ → Mem → Run (List ℕ)
show_row lc g size fuel r m =
    let head =
      row_head lc g (load 4 32 m) (load 4 (row_id r) m) (load 8 (row_ts r) m) (load 4 r m) in
    let line =
      (show_items lc g size fuel r 0 false m >>= λ items. done (head ++ items ++ codes "\n")) in
    if load 4 (row_datalen r) m == 0 then done [] else line

-- `count` rows, from the slot of id `next` on.
unfoldable pub show_rows : Libc → Globals → Handle → ℕ → ℕ → ℕ → ℕ → Mem → Run (List ℕ)
show_rows lc g h size fuel zero next m = done []
show_rows lc g h size fuel (suc count) next m =
    let r = scan_address h m (bit_and next (sub32 (load 4 40 m) 1)) in
    let rest = show_rows lc g h size fuel count (u32 (next + 1)) m in
    let rows = (show_row lc g size fuel r m >>= λ line. rest >>= λ lines. done (line ++ lines)) in
    if ltb size (r + 24) then fault else rows

unfoldable pub print_rows : Libc → Globals → ℕ → ℕ → Option Handle → Mem → Run (List ℕ)
print_rows lc g size fuel none m = done []
print_rows lc g size fuel (some h) m =
    lowest_rowid h size (load 4 40 m) 0 0xFFFFFFFF m >>= λ lowest.
    show_rows lc g h size fuel (load 4 40 m) lowest m
