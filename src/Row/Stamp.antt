-- ===== src/Row/Stamp.antt =====
-- What `__log2mem_init_row` writes to the row that it has taken: the stamp, then the place.
use log2mem.Prelude.{ℕ, ◌+◌, ◌^◌, ◌≤◌, ◌<◌, ◌≡◌, refl, ◌∙◌, inl, inr, arith, ◌==◌, if◌then◌else◌}
use log2mem.Prelude.{Bool-cases, bit_and, Option, none, some, List, [], ◌∷◌, length, length-append}
use log2mem.Memory.{Mem, load, le_bytes}
use log2mem.Memory.Frame.{
  Frame, Frame-trans, store-Frame, load-store, load-store_ne, length-le_bytes,
}
use log2mem.Config.{Config, memlog_threadid, memlog_fileline}
use log2mem.State.{Os}
use log2mem.Ready.Index.{options_at}
use log2mem.Row.{c_string, push}
use log2mem.Row.{datatype_filename, datatype_lineno}
use log2mem.Row.Item.{Item, IsRow, append_item}
use log2mem.Row.Append.{IsRowOf, push-IsRowOf, push-Frame_row, push-c_string}
use log2mem.Row.Log.{write_tid, write_ts, stamp_row, push_place}

write_tid-Frame : (os : Os) (r : ℕ) (m : Mem) → Frame r (r + 4) m (write_tid os r m)
unfolding write_tid
write_tid-Frame os r m = elim (Bool-cases (bit_and (load 4 32 m) memlog_threadid == 0)) [
  | inl e ↦ rw e (λ b h. refl)
  | inr e ↦ rw e (store-Frame 4 r _ m)
]

write_ts-Frame : (o : Option ℕ) (r : ℕ) (m : Mem) → Frame (r + 8) (r + 16) m (write_ts o r m)
unfolding write_ts
write_ts-Frame none r m b h = refl
write_ts-Frame (some ts) r m b h = store-Frame 8 (r + 8) ts m b (omega arith)

module _ (os : Os) (r rowid : ℕ) (m : Mem) where
  -- The stamp fills the row's structure and nothing else.
  pub stamp_row-Frame : Frame r (r + 24) m (stamp_row os r rowid m)
  unfolding stamp_row
  stamp_row-Frame b h =
      store-Frame 4 (r + 20) 0 _ b (omega arith)
      ∙ store-Frame 4 (r + 16) rowid _ b (omega arith)
      ∙ write_ts-Frame _ r (write_tid os r m) b (omega arith)
      ∙ write_tid-Frame os r m b (omega arith)

  pub stamp_row-id : rowid < 2 ^ 32 → load 4 (r + 16) (stamp_row os r rowid m) ≡ rowid
  unfolding stamp_row
  stamp_row-id h =
      load-store_ne 4 (r + 16) 4 (r + 20) 0 _ (inl (omega arith))
      ∙ load-store 4 (r + 16) rowid _ (omega arith)

  pub stamp_row-IsRow : IsRow (stamp_row os r rowid m) r []
  unfolding stamp_row
  stamp_row-IsRow = record { datalen = load-store 4 (r + 20) 0 _ (omega arith); payload = tt }

-- The items that tell the place of the call, if the options ask for them.
abbrev pub filename_item : List ℕ → Item
filename_item filename = record { kind = datatype_filename; bytes = c_string filename }

abbrev pub lineno_item : ℕ → Item
lineno_item lineno = record { kind = datatype_lineno; bytes = le_bytes 4 lineno }

unfoldable pub place_items : Config → Option (List ℕ) → ℕ → List Item
place_items c none lineno = []
place_items c (some filename) lineno =
    if bit_and c.options memlog_fileline == 0
    then []
    else append_item c.row_len (append_item c.row_len [] (filename_item filename))
        (lineno_item lineno)

-- The name of a source file is short enough for an `int` to hold its size in a row.
abbrev pub IsShort : Option (List ℕ) → Type 0
IsShort none = Unit
IsShort (some s) = length s + 9 < 2 ^ 31

-- What pushing the place does to an empty row.
pub record HasPlace (c : Config) (fn : Option (List ℕ)) (lineno r : ℕ) (m : Mem) (o : Option Mem)
    : Type 0 where
  pub after : Mem
  pub result : o ≡ some after
  pub is_row : IsRowOf c r (place_items c fn lineno) after
  pub frame : Frame (r + 20) (r + 24 + c.row_len) m after

pub push_place-HasPlace :
    {c : Config} {m : Mem} (fn : Option (List ℕ)) (lineno r : ℕ)
    → IsRowOf c r [] m
    → 52 ≤ r
    → c.row_len < 2 ^ 31
    → IsShort fn
    → HasPlace c fn lineno r m (push_place r fn lineno m)
unfolding push_place place_items
push_place-HasPlace {m} none lineno r v far small short = record {
  after = m;
  result = refl;
  is_row = v;
  frame = λ b h. refl;
}
push_place-HasPlace {c} {m} (some f) lineno r v far small short =
    elim (Bool-cases (bit_and c.options memlog_fileline == 0)) [
      | inl e ↦
          rw (options_at v.config, e)
            (record { after = m; result = refl; is_row = rw e v; frame = λ b h. refl })
      | inr e ↦
          rw (options_at v.config, e, push-c_string r datatype_filename f m short)
            (record {
              after = push r datatype_lineno (le_bytes 4 lineno) m1;
              result = refl;
              is_row =
                  rw e (push-IsRowOf v1 far small (lineno_item lineno) (omega arith) lineno_short);
              frame =
                  Frame-trans
                    (push-Frame_row v far small (filename_item f) (omega arith) name_short)
                    (push-Frame_row v1 far small (lineno_item lineno) (omega arith) lineno_short);
            })
    ]
  where
    m1 : Mem
    m1 = push r datatype_filename (c_string f) m

    name_short : length (c_string f) + 8 < 2 ^ 31
    name_short = omega (arith, length-append f (0 ∷ []))

    lineno_short : length (le_bytes 4 lineno) + 8 < 2 ^ 31
    lineno_short = omega (arith, length-le_bytes 4 lineno)

    v1 : IsRowOf c r (append_item c.row_len [] (filename_item f)) m1
    v1 = push-IsRowOf v far small (filename_item f) (omega arith) name_short
