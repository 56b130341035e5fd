-- ===== src/Ring/Refine.antt =====
-- Taking a row and appending to it do to the map what `new_entry` and `append_entry` do to the log.
use log2mem.Prelude.{ℕ, ◌+◌, ◌^◌, ◌≤◌, ◌<◌, ◌≡◌, refl, ◌∙◌, ◌⊎◌, inl, inr, arith, u32, sub32}
use log2mem.Prelude.{==_of_eq, ==_of_ne, Option, some, List, [], length}
use mathlib.Core.Path.{subst}
use native.Mathlib.Decide.{ℕ_discrete}
use native.Mathlib.Nat.{mod-lt}
use log2mem.Memory.{Mem, store}
use log2mem.Memory.Frame.{Frame, Frame-trans, Frame-widen, load-Frame, store-Frame, load-store}
use log2mem.Changes.{Changes, change, none_left, InRows}
use log2mem.Config.{Config}
use log2mem.State.{Os, Handle}
use log2mem.Ready.{IsSetUp}
use log2mem.Ready.Index.{HasConfig-Frame, IsPowerOfTwo-pos}
use log2mem.Row.{push}
use log2mem.Row.Item.{Item, IsRow-Frame, append_item}
use log2mem.Row.Slot.{slot, slot_of, slot_bounds, slots_apart, row_address_lem}
use log2mem.Row.Append.{IsRowOf, push-IsRowOf, push-Frame_row}
use log2mem.Row.Stamp.{
  stamp_row-Frame, stamp_row-id, stamp_row-IsRow, HasPlace, push_place-HasPlace, place_items,
  IsShort,
}
use log2mem.Row.Log.{take_row_id, fill_row, new_row, stamp_row, push_place}
use log2mem.Ring.{Entry, Log, set_entry, new_entry, append_entry, IsEntry, Represents}

pub set_entry_self : (i : ℕ) (e : Entry) (f : ℕ → Entry) → set_entry i e f i ≡ e
set_entry_self i e f = rw (==_of_eq i i refl)

pub set_entry_ne : (i j : ℕ) (e : Entry) (f : ℕ → Entry) → (i ≡ j → ⊥) → set_entry i e f j ≡ f j
set_entry_ne i j e f d = rw (==_of_ne i j d)

pub IsEntry-Frame :
    {c : Config} {h : Handle} {m m' : Mem} {lo hi : ℕ} (i : ℕ) (e : Entry)
    → (slot c h i + 24 + c.row_len ≤ lo) ⊎ (hi ≤ slot c h i)
    → Frame lo hi m m'
    → IsEntry c h m i e
    → IsEntry c h m' i e
IsEntry-Frame {c} {h} {lo = lo} {hi = hi} i e out f v = record {
  id = load-Frame 4 (slot c h i + 16) {lo = lo} {hi = hi} (omega arith) f ∙ v.id;
  row = IsRow-Frame e.items (slot c h i) {lo = lo} {hi = hi} (omega arith) f v.row;
  room = v.room;
}

module _ {c : Config} {h : Handle} (u : IsSetUp c h) where
  -- A write inside one slot changes that slot's entry only.
  pub set_entry-Represents :
      {m m' : Mem} {l : Log} (i : ℕ) (e : Entry)
      → i < c.num_rows
      → Represents c h m l
      → Frame (slot c h i) (slot c h i + 24 + c.row_len) m m'
      → IsEntry c h m' i e
      → Represents c h m' (record l { entry = set_entry i e l.entry })
  set_entry-Represents {m' = m'} {l = l} i e lt r f v = record {
    config = HasConfig-Frame (inl (omega (arith, slot_bounds i u.is_mapped lt))) f r.config;
    next = load-Frame 4 28 (inl (omega (arith, slot_bounds i u.is_mapped lt))) f ∙ r.next;
    entries = λ j p. elim (ℕ_discrete i j) [
      | yes s ↦
          subst (λ t. IsEntry c h m' t (set_entry i e l.entry t)) s
            (rw (set_entry_self i e l.entry) v)
      | no d ↦
          rw (set_entry_ne i j e l.entry d)
            (IsEntry-Frame j (l.entry j) (omega (arith, slots_apart c h i j d)) f (r.entries j p))
    ];
  }

  row_of :
      {m : Mem} {l : Log} (i : ℕ)
      → i < c.num_rows
      → Represents c h m l
      → IsRowOf c (slot c h i) (l.entry i).items m
  row_of i lt r = record {
    config = r.config;
    is_row = (r.entries i lt).row;
    room = (r.entries i lt).room;
  }

  -- A push to a row writes in the rows only.
  pub push-Changes :
      {m : Mem} {l : Log} (i : ℕ) (x : Item)
      → i < c.num_rows
      → x.kind < 256
      → length x.bytes + 8 < 2 ^ 31
      → Represents c h m l
      → Changes (InRows h) m (push (slot c h i) x.kind x.bytes m)
  push-Changes i x lt kind short r =
      change (slot c h i + 20) (slot c h i + 24 + c.row_len)
        (inr (omega (arith, slot_bounds i u.is_mapped lt)))
        (push-Frame_row (row_of i lt r) (omega (arith, slot_bounds i u.is_mapped lt)) u.row_len_fits
          x kind short)
        none_left

  -- A push to the row of a slot, in a map that is set up and holds a log, appends the item to the
  -- slot's entry if it has room, and keeps every other entry, the next id and the configuration.
  -- The tag is below 256 and the item's length fits an `int`.
  pub push_refines :
      {m : Mem} {l : Log} (i : ℕ) (x : Item)
      → i < c.num_rows
      → x.kind < 256
      → length x.bytes + 8 < 2 ^ 31
      → Represents c h m l
      → Represents c h (push (slot c h i) x.kind x.bytes m) (append_entry c i x l)
  unfolding append_entry
  push_refines {m} {l} i x lt kind short r =
      set_entry-Represents i _ lt r (Frame-widen (omega arith) (omega arith) frame) (record {
        id = load-Frame 4 (slot c h i + 16) (inl (omega arith)) frame ∙ (r.entries i lt).id;
        row = after.is_row;
        room = after.room;
      })
    where
      v : IsRowOf c (slot c h i) (l.entry i).items m
      v = row_of i lt r

      far : 52 ≤ slot c h i
      far = omega (arith, slot_bounds i u.is_mapped lt)

      frame :
          Frame
            (slot c h i + 20)
            (slot c h i + 24 + c.row_len)
            m
            (push (slot c h i) x.kind x.bytes m)
      frame = push-Frame_row v far u.row_len_fits x kind short

      after :
          IsRowOf c
            (slot c h i)
            (append_item c.row_len (l.entry i).items x)
            (push (slot c h i) x.kind x.bytes m)
      after = push-IsRowOf v far u.row_len_fits x kind short

  -- Counting the next id up leaves the entries.
  next-Represents :
      {m : Mem} {l : Log} (next : ℕ)
      → next < 2 ^ 32
      → Represents c h m l
      → Represents c h (store 4 28 next m) (record l { next = next })
  next-Represents {m} {l} next lt r = record {
    config = HasConfig-Frame (inr (omega arith)) (store-Frame 4 28 next m) r.config;
    next = load-store 4 28 next m (omega arith);
    entries = λ i p.
        IsEntry-Frame i (l.entry i) (inr (omega (arith, slot_bounds i u.is_mapped p)))
          (store-Frame 4 28 next m) (r.entries i p);
  }

  -- What taking a row does: the row's address and the map that results.
  pub record IsTaken (os : Os) (fn : Option (List ℕ)) (lineno : ℕ) (m : Mem) (l : Log)
      : Type 0 where
    pub after : Mem
    pub result : new_row os fn lineno h m ≡ some (slot c h (slot_of c l.next), after)
    pub frame :
        Frame
          (slot c h (slot_of c l.next))
          (slot c h (slot_of c l.next) + 24 + c.row_len)
          (store 4 28 (u32 (l.next + 1)) m)
          after
    pub represents : Represents c h after (new_entry c (place_items c fn lineno) l)
    pub changes : Changes (InRows h) m after

  module _ (os : Os) (fn : Option (List ℕ)) (lineno : ℕ) (m : Mem) (l : Log)
      (r : Represents c h m l) (word : l.next < 2 ^ 32) (short : IsShort fn) where
    abbrev i : ℕ
    i = slot_of c l.next

    abbrev at : ℕ
    at = slot c h i

    abbrev m1 : Mem
    m1 = store 4 28 (u32 (l.next + 1)) m

    abbrev m2 : Mem
    m2 = stamp_row os at l.next m1

    in_range : i < c.num_rows
    in_range = mod-lt l.next (IsPowerOfTwo-pos u.rounded.rows)

    r1 : Represents c h m1 (record l { next = u32 (l.next + 1) })
    r1 = next-Represents (u32 (l.next + 1)) (omega arith) r

    far : 256 ≤ at
    far = omega (arith, slot_bounds i u.is_mapped in_range)

    stamped : IsRowOf c at [] m2
    stamped = record {
      config =
          HasConfig-Frame (inl (omega (arith, far))) (stamp_row-Frame os at l.next m1) r1.config;
      is_row = stamp_row-IsRow os at l.next m1;
      room = omega arith;
    }

    placed : HasPlace c fn lineno at m2 (push_place at fn lineno m2)
    placed = push_place-HasPlace fn lineno at stamped (omega (arith, far)) u.row_len_fits short

    row-Frame : Frame at (at + 24 + c.row_len) m1 placed.after
    row-Frame =
        Frame-trans (Frame-widen (omega arith) (omega arith) (stamp_row-Frame os at l.next m1))
          (Frame-widen (omega arith) (omega arith) placed.frame)

    filled : fill_row os fn lineno at l.next m1 ≡ some (at, placed.after)
    unfolding fill_row
    filled = rw (placed.result, fill_row)

    old_id : sub32 (u32 (l.next + 1)) 1 ≡ l.next
    old_id = omega arith

    taken : new_row os fn lineno h m ≡ some (at, placed.after)
    unfolding new_row take_row_id
    taken = rw (r.next, old_id, row_address_lem l.next u r1.config, filled)

    -- Taking a row in a map that is set up and holds a log gives the row in the slot of the next
    -- id; the map then holds the log with a new entry of that id in that slot, which has the place
    -- of the call as the options ask, and only the rows and the counter of ids are written. The
    -- next id is a word of 32 bits, and the file's name fits a row's size.
    pub new_row-IsTaken : IsTaken os fn lineno m l
    unfolding new_entry
    new_row-IsTaken = record {
      after = placed.after;
      result = taken;
      frame = row-Frame;
      represents = set_entry-Represents i _ in_range r1 row-Frame (record {
        id =
            load-Frame 4 (at + 16) (inl (omega arith)) placed.frame
            ∙ stamp_row-id os at l.next m1 word;
        row = placed.is_row.is_row;
        room = placed.is_row.room;
      });
      changes = change 28 32 (inl (omega arith)) (store-Frame 4 28 (u32 (l.next + 1)) m) (
          change at (at + 24 + c.row_len) (inr (omega (arith, slot_bounds i u.is_mapped in_range)))
            row-Frame none_left);
    }
