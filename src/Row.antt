-- ===== src/Row.antt =====
-- Rows: `__log2mem_push`, `__log2mem_push_str`, `__log2mem_init_row` and the logging functions over
-- them, of liblog2mem/log2mem.c. A row pointer is an address, or `none` for the null pointer.
pub mod Item
pub mod Push
pub mod Log
pub mod Slot
pub mod Append
pub mod Stamp
pub mod Event
use log2mem.Prelude.{ℕ, ◌+◌, ◌-◌, ◌*◌, ◌%◌, ◌^◌, bit_and, ◌==◌, ltb, if◌then◌else◌, ◌&&◌}
use log2mem.Prelude.{
  Option, none, some, List, [], ◌∷◌, ◌++◌, length, take, u32, sext, sub32, leb_int,
}
use log2mem.Memory.{Mem, load, store, write_bytes, le_bytes}
use log2mem.Abi.{sizeof_row, sizeof_data_hdr}
use log2mem.Config.{load_config, memlog_fileline, memlog_threadid}
use log2mem.Layout.{calc_row_total_size}
use log2mem.State.{Handle, State, Os, M, returned, undefined, ◌>>=◌, ◌>>◌, pure}
use log2mem.Init.{with_handle, prepare_ptr}
use log2mem.Time.{clock_source}

-- `MEMLOG_DATATYPE_…`
abbrev pub datatype_filename : ℕ
datatype_filename = 1

abbrev pub datatype_string : ℕ
datatype_string = 2

abbrev pub datatype_uint : ℕ
datatype_uint = 3

abbrev pub datatype_int : ℕ
datatype_int = 4

abbrev pub datatype_ulong : ℕ
datatype_ulong = 5

abbrev pub datatype_long : ℕ
datatype_long = 6

abbrev pub datatype_float : ℕ
datatype_float = 7

abbrev pub datatype_double : ℕ
datatype_double = 8

abbrev pub datatype_char : ℕ
datatype_char = 9

abbrev pub datatype_lineno : ℕ
datatype_lineno = 10

-- Members of `struct log2mem_row` and of the configuration in the header.
abbrev pub row_ts : ℕ → ℕ
row_ts r = r + 8

abbrev pub row_id : ℕ → ℕ
row_id r = r + 16

abbrev pub row_datalen : ℕ → ℕ
row_datalen r = r + 20

abbrev pub row_payload : ℕ → ℕ
row_payload r = r + sizeof_row

abbrev pub config_row_len : Mem → ℕ
config_row_len m = load 4 44 m

-- `MEMLOG_PUT_HDR`, without the step of the pointer.
unfoldable pub put_hdr : ℕ → ℕ → ℕ → Mem → Mem
put_hdr ptr datatype datalen m =
    store 4 (ptr + 4) (u32 (sizeof_data_hdr + sext datalen)) (store 1 ptr datatype m)

-- `datalen` is the length of `bytes`.
unfoldable pub push : ℕ → ℕ → List ℕ → Mem → Mem
push row datatype bytes m =
    let remain = sub32 (config_row_len m) (load 4 (row_datalen row) m) in
    let totlen = u32 (sizeof_data_hdr + length bytes) in
    let ptr = row_payload row + load 4 (row_datalen row) m in
    let m1 = put_hdr ptr datatype (length bytes) m in
    let m2 = write_bytes (ptr + sizeof_data_hdr) bytes m1 in
    let m3 = store 4 (row_datalen row) (u32 (load 4 (row_datalen row) m2 + totlen)) m2 in
    if leb_int totlen remain then m3 else m

-- `str` is the object that the pointer points to, as far as it may be read; `memcpy` of more bytes
-- than it has, or of a negative number, is undefined: `none`.
unfoldable pub push_str : ℕ → ℕ → ℕ → List ℕ → Mem → Option Mem
push_str row datatype len str m =
    let remain = sub32 (config_row_len m) (load 4 (row_datalen row) m) in
    let totlen = u32 (sizeof_data_hdr + sext (u32 (len + 1))) in
    let ptr = row_payload row + load 4 (row_datalen row) m in
    let m1 = put_hdr ptr datatype (u32 (len + 1)) m in
    let m2 = write_bytes (ptr + sizeof_data_hdr) (take len str) m1 in
    let m3 = store 1 (ptr + sizeof_data_hdr + len) 0 m2 in
    let m4 = store 4 (row_datalen row) (u32 (load 4 (row_datalen row) m3 + totlen)) m3 in
    if leb_int totlen remain then if ltb (length str) (sext len) then none else some m4 else some m

-- A C string: its bytes and the NUL.
abbrev pub c_string : List ℕ → List ℕ
c_string s = s ++ 0 ∷ []
