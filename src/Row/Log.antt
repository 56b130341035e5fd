-- ===== src/Row/Log.antt =====
-- The logging functions of liblog2mem/log2mem.h: taking a row, writing to it and appending values.
use log2mem.Prelude.{ℕ, ◌+◌, ◌*◌, bit_and, ◌==◌, if◌then◌else◌}
use log2mem.Prelude.{Option, none, some, List, length, u32, sext, sub32}
use log2mem.Memory.{Mem, load, store, le_bytes}
use log2mem.Config.{load_config, memlog_fileline, memlog_threadid}
use log2mem.Layout.{calc_row_total_size}
use log2mem.State.{Handle, Os, M, returned, undefined, ◌>>=◌, ◌>>◌, pure}
use log2mem.Init.{with_handle}
use log2mem.Time.{clock_source}
use log2mem.Row.{push, push_str, c_string, row_ts, row_id, row_datalen}
use log2mem.Row.{
  datatype_filename, datatype_string, datatype_uint, datatype_int, datatype_ulong, datatype_long,
  datatype_float, datatype_double, datatype_char, datatype_lineno,
}

-- The row's id is the old value of the counter; the counter is a word of 32 bits.
unfoldable pub take_row_id : Mem → ℕ × Mem
take_row_id m = let next = u32 (load 4 28 m + 1) in (sub32 next 1, store 4 28 next m)

-- Where the row of an id stands, by the size and the number of rows in the map.
unfoldable pub row_address : Handle → Mem → ℕ → ℕ
row_address h m rowid =
    let rowidx = bit_and rowid (sub32 (load 4 40 m) 1) in
    let row_total_size = u32 (calc_row_total_size (load_config 32 m)) in
    h.rows + sext (u32 (rowidx * row_total_size))

-- `r->tid = syscall(SYS_gettid)`, if the options ask for it.
unfoldable pub write_tid : Os → ℕ → Mem → Mem
write_tid os r m =
    if bit_and (load 4 32 m) memlog_threadid == 0 then m else store 4 r (u32 os.gettid) m

-- `r->ts`, which keeps its value if no clock source is selected.
unfoldable pub write_ts : Option ℕ → ℕ → Mem → Mem
write_ts none r m = m
write_ts (some ts) r m = store 8 (row_ts r) ts m

-- The thread id and the time, then the id and an empty payload.
unfoldable pub stamp_row : Os → ℕ → ℕ → Mem → Mem
stamp_row os r rowid m =
    let m1 = write_tid os r m in
    let m2 = write_ts (clock_source os (load 4 32 m1)) r m1 in
    store 4 (row_datalen r) 0 (store 4 (row_id r) rowid m2)

-- The place of the call: the file's name and the line.
unfoldable pub push_place : ℕ → Option (List ℕ) → ℕ → Mem → Option Mem
push_place r none lineno m = some m
push_place r (some filename) lineno m =
    if bit_and (load 4 32 m) memlog_fileline == 0
    then some m
    else elim (push_str r datatype_filename (length filename) (c_string filename) m) [
      | none ↦ none
      | some m' ↦ some (push r datatype_lineno (le_bytes 4 lineno) m')
    ]

-- A row that has been taken is stamped, and the place is pushed.
unfoldable pub fill_row : Os → Option (List ℕ) → ℕ → ℕ → ℕ → Mem → Option (ℕ × Mem)
fill_row os filename lineno r rowid m =
    elim (push_place r filename lineno (stamp_row os r rowid m)) [
      | none ↦ none
      | some m' ↦ some (r, m')
    ]

-- The body of `__log2mem_init_row` with a valid handle.
unfoldable pub new_row : Os → Option (List ℕ) → ℕ → Handle → Mem → Option (ℕ × Mem)
new_row os filename lineno h m =
    let (rowid, m') = take_row_id m in fill_row os filename lineno (row_address h m' rowid) rowid m'

unfoldable pub run_mem : {A : Type 0} → (Mem → Option (A × Mem)) → M A
run_mem f s = elim (f s.mem) [ none ↦ undefined | some (a, m) ↦ returned a (record s { mem = m }) ]

unfoldable pub init_row : Os → Option (List ℕ) → ℕ → M (Option ℕ)
unfolding run_mem
init_row os filename lineno =
    with_handle os none (λ h. run_mem (new_row os filename lineno h) >>= λ r. pure (some r))

unfoldable pub get_row : Os → Option (List ℕ) → ℕ → M (Option ℕ)
get_row os filename lineno = init_row os filename lineno

-- An append reads the row length through the global handle, which it does not prepare.
unfoldable pub appending : Option ℕ → (ℕ → Mem → Option Mem) → M (Unit {0})
appending none f s = returned tt s
appending (some r) f s = elim s.handle [
  | none ↦ undefined
  | some h ↦ elim (f r s.mem) [ none ↦ undefined | some m ↦ returned tt (record s { mem = m }) ]
]

unfoldable pub append_value : ℕ → ℕ → Option ℕ → ℕ → M (Unit {0})
unfolding appending
append_value datatype size row v = appending row (λ r m. some (push r datatype (le_bytes size v) m))

unfoldable pub append_uint : Option ℕ → ℕ → M (Unit {0})
unfolding append_value
append_uint row d = append_value datatype_uint 4 row d

unfoldable pub append_int : Option ℕ → ℕ → M (Unit {0})
unfolding append_value
append_int row d = append_value datatype_int 4 row d

unfoldable pub append_ulong : Option ℕ → ℕ → M (Unit {0})
unfolding append_value
append_ulong row d = append_value datatype_ulong 8 row d

unfoldable pub append_long : Option ℕ → ℕ → M (Unit {0})
unfolding append_value
append_long row d = append_value datatype_long 8 row d

-- Floating-point values are their bit patterns.
unfoldable pub append_float : Option ℕ → ℕ → M (Unit {0})
unfolding append_value
append_float row d = append_value datatype_float 4 row d

unfoldable pub append_double : Option ℕ → ℕ → M (Unit {0})
unfolding append_value
append_double row d = append_value datatype_double 8 row d

unfoldable pub append_char : Option ℕ → ℕ → M (Unit {0})
unfolding append_value
append_char row d = append_value datatype_char 1 row d

-- `str` is the readable object; `len` is an `int`.
unfoldable pub append_str2 : Option ℕ → Option (List ℕ) → ℕ → M (Unit {0})
unfolding appending
append_str2 row none len s = returned tt s
append_str2 row (some str) len s = appending row (λ r. push_str r datatype_string len str) s

unfoldable pub append_str : Option ℕ → Option (List ℕ) → M (Unit {0})
append_str row none s = returned tt s
append_str row (some str) s = append_str2 row (some (c_string str)) (length str) s

unfoldable pub write : Os → Option (List ℕ) → Option (List ℕ) → ℕ → M (Option ℕ)
write os str filename lineno = do r ← init_row os filename lineno; append_str r str; pure r

unfoldable pub set_ts : Option ℕ → ℕ → M (Unit {0})
set_ts none ts s = returned tt s
set_ts (some r) ts s = returned tt (record s { mem = store 8 (row_ts r) ts s.mem })
