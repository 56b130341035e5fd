-- ===== src/Util/Item.antt =====
-- The items of a row as `print_rows` of util/log2memutil.c shows them.
pub mod Show
use log2mem.Prelude.{
  ℕ, zero, suc, ◌+◌, ◌-◌, ◌*◌, ◌==◌, ltb, if◌then◌else◌, Bool, true, false, ◌&&◌, List, [], ◌∷◌,
  ◌++◌, codes, u32, u64, sext,
}
use log2mem.Memory.{Mem, load}
use log2mem.Abi.{sizeof_data_hdr}
use log2mem.Create.{decimal}
use log2mem.Row.{row_payload, row_datalen}
use log2mem.Util.Run.{Run, done, fault, out_of_fuel, ◌>>=◌}
use log2mem.Util.Format.{Libc, Globals, signed, show_int, read_text}

-- The cases of `switch (hdr->type)`.
pub data Tag : Type 0 where
  filename : Tag
  lineno : Tag
  string : Tag
  uint : Tag
  int : Tag
  ulong : Tag
  long : Tag
  float : Tag
  double : Tag
  char : Tag
  no_case : Tag

unfoldable pub tag_of : ℕ → Tag
tag_of kind =
    if kind == 1
    then filename
    else if kind == 2
    then string
    else if kind == 3
    then uint
    else if kind == 4
    then int
    else if kind == 5
    then ulong
    else if kind == 6
    then long
    else if kind == 7
    then float
    else if kind == 8
    then double
    else if kind == 9
    then char
    else if kind == 10
    then lineno
    else no_case

-- The case of the switch: what it prints of the bytes at `a`. The map has `size` bytes.
unfoldable pub show_data : Libc → Globals → ℕ → Tag → ℕ → Mem → Run (List ℕ)
show_data lc g size filename a m =
    if g.terse
    then done []
    else read_text (size - a) a m >>= λ s. done (codes "(" ++ s ++ codes ":")
show_data lc g size lineno a m =
    if g.terse then done [] else done (show_int (load 4 a m) ++ codes ") ")
show_data lc g size string a m = read_text (size - a) a m
show_data lc g size uint a m = done (decimal (load 4 a m))
show_data lc g size int a m = done (show_int (load 4 a m))
show_data lc g size ulong a m = done (decimal (load 8 a m))
show_data lc g size long a m = done (signed 64 (load 8 a m))
show_data lc g size float a m = done (lc.show_float (load 4 a m))
show_data lc g size double a m = done (lc.show_double (load 8 a m))
show_data lc g size char a m = done (load 1 a m ∷ [])
show_data lc g size no_case a m = done []

-- The bytes that the case reads at a fixed length.
abbrev pub width : Tag → ℕ
width filename = 0
width lineno = 4
width string = 0
width uint = 4
width int = 4
width ulong = 8
width long = 8
width float = 4
width double = 8
width char = 1
width no_case = 0

-- `wantdelim` after the item.
abbrev pub delim_after : Tag → Bool
delim_after filename = false
delim_after lineno = false
delim_after string = true
delim_after uint = true
delim_after int = true
delim_after ulong = true
delim_after long = true
delim_after float = true
delim_after double = true
delim_after char = true
delim_after no_case = true

unfoldable pub delim_before : Globals → Bool → List ℕ
delim_before g wantdelim = if g.showdelim && wantdelim then g.delim else []

-- The loop over the items, from offset `i` of the payload on; `i` is an `int`. A read that is not
-- inside the map is a fault, and `fuel` is the number of rounds that are run.
unfoldable pub show_items : Libc → Globals → ℕ → ℕ → ℕ → ℕ → Bool → Mem → Run (List ℕ)
show_items lc g size zero row i wantdelim m = out_of_fuel
show_items lc g size (suc fuel) row i wantdelim m =
    let hdr = u64 (row_payload row + sext i) in
    let tag = tag_of (load 1 hdr m) in
    let next = u32 (i + load 4 (hdr + 4) m) in
    let rest = show_items lc g size fuel row next (delim_after tag) m in
    let round =
      (show_data lc g size tag (hdr + sizeof_data_hdr) m >>= λ text.
      rest >>= λ more. done (delim_before g wantdelim ++ text ++ more)) in
    let reads = if ltb size (hdr + sizeof_data_hdr + width tag) then fault else round in
    if ltb i (load 4 (row_datalen row) m) then reads else done []
