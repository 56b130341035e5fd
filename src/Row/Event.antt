-- ===== src/Row/Event.antt =====
-- `log2mem_time_event4` of liblog2mem/log2mem.c and its short forms: a row for an event, written at
-- once and not by pushes.
pub mod Items
pub mod Fill
use log2mem.Prelude.{ℕ, ◌+◌, ◌-◌, ◌*◌, ◌^◌, ◌==◌, ltb, if◌then◌else◌, ◌&&◌, ◌||◌}
use log2mem.Prelude.{Option, none, some, List, length, take, u32, sext, sub32, leb_int}
use log2mem.Memory.{Mem, load, store, write_bytes}
use log2mem.Abi.{sizeof_data_hdr}
use log2mem.State.{Os, M, pure, ◌>>=◌, ◌>>◌}
use log2mem.Row.{
  config_row_len, row_datalen, row_payload, put_hdr, c_string, datatype_int, datatype_string,
}
use log2mem.Row.Log.{init_row, appending}

-- A header and an `int`, 12 bytes.
unfoldable pub put_int : ℕ → ℕ → Mem → Mem
put_int ptr v m = store 4 (ptr + sizeof_data_hdr) v (put_hdr ptr datatype_int 4 m)

-- `str && len>0` of an `int`.
unfoldable pub has_text : Option (List ℕ) → ℕ → Option (List ℕ)
has_text none len = none
has_text (some str) len = if (len == 0) || ltb (2 ^ 31 - 1) len then none else some str

-- The bytes of a text of `len` bytes with its header and NUL; `none` where `memcpy` reads too far.
unfoldable pub put_text : ℕ → Option (List ℕ) → ℕ → Mem → Option Mem
put_text ptr none len m = some m
put_text ptr (some str) len m =
    let m1 = put_hdr ptr datatype_string (u32 (len + 1)) m in
    let m2 = write_bytes (ptr + sizeof_data_hdr) (take len str) m1 in
    if ltb (length str) len then none else some (store 1 (ptr + sizeof_data_hdr + len) 0 m2)

unfoldable pub event_len : Option (List ℕ) → ℕ → ℕ
event_len none len = 2 * sizeof_data_hdr + 2 * 4
event_len (some str) len =
    u32 (2 * sizeof_data_hdr + 2 * 4 + (sizeof_data_hdr + sext (u32 (len + 1))))

-- `row->datalen += len_needed`
unfoldable pub add_datalen : ℕ → ℕ → Option Mem → Option Mem
add_datalen row needed none = none
add_datalen row needed (some m) =
    some (store 4 (row_datalen row) (u32 (load 4 (row_datalen row) m + needed)) m)

unfoldable pub fill_event : ℕ → ℕ → ℕ → Option (List ℕ) → ℕ → Mem → Option Mem
fill_event row flowid msgref str len m =
    let text = has_text str len in
    let needed = event_len text len in
    let avail = sub32 (config_row_len m) (load 4 (row_datalen row) m) in
    let ptr = row_payload row in
    let m1 = put_int ptr flowid m in
    let m2 = put_int (ptr + 12) msgref m1 in
    if leb_int needed avail
    then add_datalen row needed (put_text (ptr + 24) text len m2)
    else some m

unfoldable pub time_event4 : Os → ℕ → ℕ → Option (List ℕ) → ℕ → M (Option ℕ)
time_event4 os flowid msgref str len = do
  row ← init_row os none 0
  appending row (λ r. fill_event r flowid msgref str len)
  pure row

unfoldable pub time_event2 : Os → ℕ → ℕ → M (Option ℕ)
time_event2 os flowid msgid = time_event4 os flowid msgid none 0

-- `msgstr` is not null.
unfoldable pub time_event3 : Os → ℕ → ℕ → List ℕ → M (Option ℕ)
time_event3 os flowid msgid msgstr =
    time_event4 os flowid msgid (some (c_string msgstr)) (length msgstr)
