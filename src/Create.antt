-- ===== src/Create.antt =====
-- `__log2mem_create`, `__default_filename` and `__build_user_id` of liblog2mem/log2mem.c: a new memory
-- map with its header.
pub mod Text
pub mod Header
pub use Text.{decimal, pad_left}
use log2mem.Prelude.{ℕ, suc, ◌+◌, ◌-◌, ◌==◌, leb, ltb, if◌then◌else◌, ◌&&◌, Option, none, some}
use log2mem.Prelude.{Bool, List, [], ◌∷◌, ◌++◌, codes, take, replicate, u32, u64, sext}
use log2mem.Memory.{Mem, store, write_bytes, fill}
use log2mem.Round.{round_up_next_power_of_2}
use log2mem.Config.{Config, store_config}
use log2mem.Layout.{Layout, calculate_layout}
use log2mem.State.{Handle, State, BrokenTime, Os, Outcome, returned, exited}

-- The first of two texts that is not empty, as `if (buf[0]=='\0')` asks.
or_else : List ℕ → List ℕ → List ℕ
or_else [] ys = ys
or_else (x ∷ xs) ys = x ∷ xs

text_or_empty : Option (List ℕ) → List ℕ
text_or_empty none = []
text_or_empty (some s) = s

-- The buffer has 256 bytes, the last of which is set to NUL.
unfoldable pub build_user_id : Os → List ℕ
unfolding or_else text_or_empty
build_user_id os = take 255 (
    or_else
      (or_else (or_else (text_or_empty os.getlogin_r) os.cuserid)
        (text_or_empty (os.getenv (codes "LOGNAME"))))
      (text_or_empty (os.getenv (codes "USER"))))

unfoldable pub default_filename : Os → List ℕ
default_filename os = take 4095 (codes "/var/tmp/log2mem-" ++ build_user_id os ++ codes ".dat")

-- `n += (n == 0)`
abbrev pub at_least_one : ℕ → ℕ
at_least_one n = u32 (n + (if n == 0 then 1 else 0))

-- The numbers of counters, rows and variables as they are stored in the map.
unfoldable pub round_config : Config → Config
round_config c = record {
  options = c.options;
  num_counters = at_least_one (round_up_next_power_of_2 c.num_counters);
  num_rows = at_least_one (round_up_next_power_of_2 c.num_rows);
  row_len = c.row_len;
  num_vars = round_up_next_power_of_2 c.num_vars;
}

abbrev pub memlog_version : ℕ
memlog_version = 2

-- `"%04i/%02d/%02d %02i:%02i:%02i"`
date_text : BrokenTime → List ℕ
date_text t =
    pad_left 4 (decimal (t.year + 1900))
    ++ codes "/"
    ++ pad_left 2 (decimal (t.mon + 1))
    ++ codes "/"
    ++ pad_left 2 (decimal t.mday)
    ++ codes " "
    ++ pad_left 2 (decimal t.hour)
    ++ codes ":"
    ++ pad_left 2 (decimal t.min)
    ++ codes ":"
    ++ pad_left 2 (decimal t.sec)

-- `snprintf` of a text into `n` bytes at `a`.
snprintf : ℕ → ℕ → List ℕ → Mem → Mem
snprintf a n text m = write_bytes a (take (n - 1) text ++ (0 ∷ [])) m

-- The header in the order of the writes; byte 0 of the `long` 1 is not 0 on this machine.
unfoldable pub write_header : Os → Config → Mem → Mem
unfolding date_text snprintf
write_header os config m0 =
    let m1 = snprintf 0 24 (codes "log2mem memmap version " ++ decimal memlog_version) m0 in
    let m2 = store 1 23 0 m1 in
    let m3 = store 4 52 memlog_version m2 in
    let m4 = store 4 24 1 m3 in
    let m5 = store 4 56 64 m4 in
    let m6 = store_config 32 config m5 in
    let m7 = store 4 28 0 m6 in
    let m8 = fill 60 32 0 m7 in
    let m9 = snprintf 60 31 (date_text os.localtime) m8 in store 1 91 0 m9

-- The pointers to the sections, from the offsets; both `__log2mem_create` and
-- `__log2mem_calculate_section_pointers` set them.
unfoldable pub section_pointers : Layout → Option (List ℕ) → Handle
section_pointers l filename = record {
  counters = sext l.counters_off;
  rows = sext l.rows_off;
  counter_labels = sext l.counter_labels_off;
  double_vars = sext l.double_vars_off;
  int_vars = sext l.int_vars_off;
  filename = filename;
}

unfoldable pub file_name : Os → Option (List ℕ) → List ℕ
file_name os (some fn) = fn
file_name os none = default_filename os

-- The new handle is returned; the map is part of the state.
unfoldable pub create : Os → Option (List ℕ) → Config → State → Outcome Handle
unfolding file_name
create os fn config s =
    let name = file_name os fn in
    let config' = round_config config in
    let layout = calculate_layout os.page_size config' in
    if os.ftruncate name (sext layout.size)
    then elim (os.mmap name (sext layout.size)) [
      | none ↦ exited 1
      | some m ↦
          returned (section_pointers layout (some name))
            (record s { mem = write_header os config' (fill 0 (sext layout.size) 0 m) })
    ]
    else exited 1
