-- ===== src/Row/Event/Fill.antt =====
-- Filling an event's row: all items of the event go in, or none of them.
use log2mem.Prelude.{
  ℕ, ◌+◌, ◌^◌, ◌≤◌, ◌<◌, ◌≡◌, refl, ◌∙◌, inl, inr, arith, leb, leb_of_le, leb_of_lt, leb_int, sub32,
}
use log2mem.Prelude.{Option, some, List, [], if◌then◌else◌, u32}
use native.Mathlib.Decide.{dec_le}
use log2mem.Memory.{Mem, load, store}
use log2mem.Memory.Frame.{Frame, Frame-trans, Frame-widen, store-Frame, load-Frame, load-store}
use log2mem.Config.{Config}
use log2mem.Ready.Index.{row_len_at, HasConfig-Frame}
use log2mem.Row.Item.{Item, Holds-Frame, IsRow, items_size}
use log2mem.Row.Append.{IsRowOf}
use log2mem.Row.Event.{put_int, has_text, put_text, add_datalen, fill_event}
use log2mem.Row.Event.Items.{
  put_items, put_items-Frame, put_items-Holds, event_items, IsText, items_put, event_items-AreItems,
  event_len_lem, event_items-lt,
}

fits_test : (n l : ℕ) → n < 2 ^ 31 → l < 2 ^ 31 → leb_int n (sub32 l 0) ≡ leb n l
fits_test n l p q = ground arith

-- What filling an empty row for an event does.
pub record IsFilled (c : Config) (r : ℕ) (is : List Item) (m : Mem) (o : Option Mem) : Type 0 where
  pub after : Mem
  pub result : o ≡ some after
  pub is_row : IsRowOf c r (if leb (items_size is) c.row_len then is else []) after
  pub frame : Frame (r + 20) (r + 24 + c.row_len) m after

module _ {c : Config} {r : ℕ} {m : Mem} (v : IsRowOf c r [] m) (far : 52 ≤ r)
    (small : c.row_len < 2 ^ 31) (flowid msgref : ℕ) (str : Option (List ℕ)) (len : ℕ)
    (ok : IsText (has_text str len) len) where
  abbrev is : List Item
  is = event_items flowid msgref (has_text str len) len

  abbrev m1 : Mem
  m1 = put_items (r + 24) is m

  abbrev m2 : Mem
  m2 = store 4 (r + 20) (items_size is) m1

  full-Frame : Frame (r + 20) (r + 24 + items_size is) m m2
  full-Frame =
      Frame-trans (Frame-widen (omega arith) (omega arith) (put_items-Frame (r + 24) is m))
        (Frame-widen (omega arith) (omega arith) (store-Frame 4 (r + 20) (items_size is) m1))

  datalen_before : load 4 (r + 20) m1 ≡ 0
  datalen_before =
      load-Frame 4 (r + 20) (inl (omega arith)) (put_items-Frame (r + 24) is m) ∙ v.is_row.datalen

  full-IsRow : IsRow m2 r is
  full-IsRow = record {
    datalen =
        load-store 4 (r + 20) (items_size is) m1
          (omega (arith, event_items-lt flowid msgref (has_text str len) len ok));
    payload =
        Holds-Frame is (r + 24) (inr (omega arith)) (store-Frame 4 (r + 20) (items_size is) m1) (
          put_items-Holds (r + 24) is m
            (event_items-AreItems flowid msgref (has_text str len) len ok));
  }

  test :
      leb_int (items_size is) (sub32 (load 4 44 m) (load 4 (r + 20) m))
      ≡ leb (items_size is) c.row_len
  test =
      rw (row_len_at v.config, v.is_row.datalen)
        (fits_test (items_size is) c.row_len
          (event_items-lt flowid msgref (has_text str len) len ok) small)

  new_datalen : u32 (0 + items_size is) ≡ items_size is
  new_datalen = omega (arith, event_items-lt flowid msgref (has_text str len) len ok)

  written :
      add_datalen r (items_size is) (
        put_text
          (r + 24 + 24)
          (has_text str len)
          len
          (put_int (r + 24 + 12) msgref (put_int (r + 24) flowid m)))
      ≡ some m2
  unfolding add_datalen
  written =
      rw (items_put (r + 24) flowid msgref (has_text str len) len m ok, datalen_before, new_datalen)
        refl

  -- An empty row for an event gets all items of the event if they fit together, and stays empty if
  -- not; nothing but the row's length and payload is written.
  pub fill_event-IsFilled : IsFilled c r is m (fill_event r flowid msgref str len m)
  unfolding fill_event
  fill_event-IsFilled = elim (dec_le (items_size is) c.row_len) [
    | yes p ↦ record {
      after = m2;
      result =
          rw (event_len_lem flowid msgref (has_text str len) len ok, test, leb_of_le _ _ p, written)
            refl;
      is_row = rw (leb_of_le _ _ p) (record {
        config = HasConfig-Frame (inl (omega arith)) full-Frame v.config;
        is_row = full-IsRow;
        room = p;
      });
      frame = Frame-widen (omega arith) (omega arith) full-Frame;
    }
    | no d ↦ record {
      after = m;
      result =
          rw
            (
              event_len_lem flowid msgref (has_text str len) len ok,
              test,
              leb_of_lt (items_size is) c.row_len (omega arith),
            )
            refl;
      is_row = rw (leb_of_lt (items_size is) c.row_len (omega arith)) v;
      frame = λ b h. refl;
    }
  ]
