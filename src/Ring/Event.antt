-- ===== src/Ring/Event.antt =====
-- `log2mem_time_event4` and its short forms on a ready process.
use log2mem.Prelude.{
  ℕ, ◌+◌, ◌^◌, ◌<◌, ◌≤◌, ◌≡◌, refl, ◌∙◌, arith, leb, if◌then◌else◌, Option, none, some, List, [],
}
use log2mem.Prelude.{==_of_eq, ==_of_ne, inl, inr}
use mathlib.Core.Path.{subst}
use native.Mathlib.Decide.{ℕ_discrete}
use native.Mathlib.Nat.{mod-lt}
use log2mem.Memory.{Mem}
use log2mem.Memory.Frame.{load-Frame, Frame-widen}
use log2mem.Changes.{Changes-trans, change, none_left}
use log2mem.Config.{Config}
use log2mem.State.{Handle, State, Os, pure, ◌>>◌}
use log2mem.Ready.{IsReady}
use log2mem.Ready.Index.{IsPowerOfTwo-pos}
use log2mem.Ready.Prepared.{bind_returned}
use log2mem.Row.Item.{Item, items_size}
use log2mem.Row.Slot.{slot, slot_of, slot_bounds}
use log2mem.Row.Log.{init_row, appending}
use log2mem.Row.Stamp.{place_items}
use log2mem.Row.Event.{fill_event, has_text, time_event4}
use log2mem.Row.Event.Items.{event_items, event_text, has_text_lem, IsText}
use log2mem.Row.Event.Fill.{IsFilled, fill_event-IsFilled}
use log2mem.Ring.{Entry, Log, Represents, IsEntry, new_entry, set_entry}
use log2mem.Ring.Refine.{set_entry-Represents, set_entry_self}
use log2mem.Ring.Append.{appending_set}
use log2mem.Ring.Call.{Takes, init_row-Takes}

-- All of the items if they fit together, or none of them.
abbrev pub all_or_none : Config → List Item → List Item
all_or_none c is = if leb (items_size is) c.row_len then is else []

-- Of two settings of the same entry the later one counts.
set_entry_twice :
    (i : ℕ) (e e' : Entry) (f : ℕ → Entry) (j : ℕ)
    → set_entry i e (set_entry i e' f) j ≡ set_entry i e f j
set_entry_twice i e e' f j = elim (ℕ_discrete i j) [
  | yes p ↦ rw (==_of_eq i j p) refl
  | no d ↦ rw (==_of_ne i j d) refl
]

same_entries :
    {c : Config} {h : Handle} {m : Mem} {next : ℕ} {f : ℕ → Entry} (g : ℕ → Entry)
    → ((i : ℕ) → f i ≡ g i)
    → Represents c h m (record { next = next; entry = f })
    → Represents c h m (record { next = next; entry = g })
same_entries {c} {h} {m} g e r = record {
  config = r.config;
  next = r.next;
  entries = λ i p. subst (λ t. IsEntry c h m i t) (e i) (r.entries i p);
}

module _ (os : Os) {c : Config} {h : Handle} (s : State) (l : Log) (r : IsReady c h s)
    (v : Represents c h s.mem l) (word : l.next < 2 ^ 32) where
  abbrev i : ℕ
  i = slot_of c l.next

  in_range : i < c.num_rows
  in_range = mod-lt l.next (IsPowerOfTwo-pos r.set_up.rounded.rows)

  taken : Takes c h s l (new_entry c [] l) (init_row os none 0)
  unfolding place_items
  taken = init_row-Takes os s l none 0 r v word tt

  empty_row : IsEntry c h taken.after.mem i (record { id = l.next; items = [] })
  unfolding new_entry
  empty_row =
      subst (λ t. IsEntry c h taken.after.mem i t) (set_entry_self i _ l.entry)
        (taken.represents.entries i in_range)

  module _ (flowid msgref : ℕ) (str : Option (List ℕ)) (len : ℕ)
      (ok : IsText (has_text str len) len) where
    abbrev is : List Item
    is = event_items flowid msgref (has_text str len) len

    far : 52 ≤ slot c h i
    far = omega (arith, slot_bounds i r.set_up.is_mapped in_range)

    filled :
        IsFilled c
          (slot c h i)
          is
          taken.after.mem
          (fill_event (slot c h i) flowid msgref str len taken.after.mem)
    filled =
        fill_event-IsFilled
          (record { config = taken.ready.config; is_row = empty_row.row; room = omega arith }) far
          r.set_up.row_len_fits flowid msgref str len ok

    event_takes :
        Takes c h s l (new_entry c (all_or_none c is) l) (time_event4 os flowid msgref str len)
    unfolding time_event4 new_entry
    event_takes =
        let row : Option ℕ = some (slot c h i) in
        let end : State = record taken.after { mem = filled.after } in
        let made =
          set_entry-Represents r.set_up i (record { id = l.next; items = all_or_none c is })
            in_range taken.represents (Frame-widen (omega arith) (omega arith) filled.frame)
            (record {
              id = load-Frame 4 (slot c h i + 16) (inl (omega arith)) filled.frame ∙ empty_row.id;
              row = filled.is_row.is_row;
              room = filled.is_row.room;
            }) in
        record {
          after = end;
          returns =
              bind_returned (init_row os none 0)
                (λ row. appending row (λ r. fill_event r flowid msgref str len) >> pure row) s
                taken.returns
              ∙ bind_returned (appending row (λ r. fill_event r flowid msgref str len))
                  (λ _. pure row) taken.after
                  (appending_set (slot c h i) (λ r. fill_event r flowid msgref str len) taken.after
                    taken.ready.has_handle filled.result);
          ready = record {
            has_handle = taken.ready.has_handle;
            config = made.config;
            set_up = r.set_up;
          };
          represents = same_entries _ (set_entry_twice i _ _ l.entry) made;
          changes = Changes-trans taken.changes (
              change (slot c h i + 20) (slot c h i + 24 + c.row_len)
                (inr (omega (arith, slot_bounds i r.set_up.is_mapped in_range))) filled.frame
                none_left);
        }

  -- `log2mem_time_event4`, on a ready process that holds a log, returns the row in the slot of the
  -- next id; the process then holds the log with a new entry of that id, which has all items of the
  -- event (two numbers, and the text if `len` is positive) if they fit a row together, and is empty
  -- if not. The text has `len` bytes, and they fit a row's size.
  pub time_event4-Takes :
      (flowid msgref : ℕ) (str : Option (List ℕ)) (len : ℕ)
      → IsText (event_text str len) len
      → Takes c h s l
          (new_entry c (all_or_none c (event_items flowid msgref (event_text str len) len)) l)
          (time_event4 os flowid msgref str len)
  time_event4-Takes flowid msgref str len =
      subst
        (λ t.
          IsText t len
          → Takes c h s l (new_entry c (all_or_none c (event_items flowid msgref t len)) l)
              (time_event4 os flowid msgref str len))
        (has_text_lem str len) (event_takes flowid msgref str len)
