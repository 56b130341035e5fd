-- ===== src/Ring.antt =====
-- The abstract view of the rows: a ring of entries, each an id with the items logged under it. The
-- children prove that the functions of Row/Log.antt implement it, and what it keeps.
pub mod Refine
pub mod Recent
pub mod Append
pub mod Call
pub mod Run
pub mod History
pub mod Event
use log2mem.Prelude.{ℕ, ◌+◌, ◌%◌, ◌≤◌, ◌<◌, ◌≡◌, ◌==◌, if◌then◌else◌, u32, List, []}
use log2mem.Memory.{Mem, load}
use log2mem.Config.{Config}
use log2mem.State.{Handle}
use log2mem.Ready.{HasConfig}
use log2mem.Row.Item.{Item, IsRow, items_size, append_item}
use log2mem.Row.Slot.{slot, slot_of}

pub record Entry : Type 0 where
  pub id : ℕ
  pub items : List Item

-- The id that the next row gets, and the entry in each slot.
pub record Log : Type 0 where
  pub next : ℕ
  pub entry : ℕ → Entry

abbrev pub empty_log : Log
empty_log = record { next = 0; entry = λ i. record { id = 0; items = [] } }

abbrev pub set_entry : ℕ → Entry → (ℕ → Entry) → ℕ → Entry
set_entry i e f j = if i == j then e else f j

-- A new row overwrites the entry of its slot.
unfoldable pub new_entry : Config → List Item → Log → Log
new_entry c is l = record {
  next = u32 (l.next + 1);
  entry = set_entry (slot_of c l.next) (record { id = l.next; items = is }) l.entry;
}

-- An item goes to whatever entry stands in the slot.
unfoldable pub append_entry : Config → ℕ → Item → Log → Log
append_entry c i x l = record l {
  entry =
      set_entry i
        (record { id = (l.entry i).id; items = append_item c.row_len (l.entry i).items x }) l.entry;
}

-- The slot `i` of the map holds this entry, within its payload.
pub record IsEntry (c : Config) (h : Handle) (m : Mem) (i : ℕ) (e : Entry) : Type 0 where
  pub id : load 4 (slot c h i + 16) m ≡ e.id
  pub row : IsRow m (slot c h i) e.items
  pub room : items_size e.items ≤ c.row_len

-- The map holds this log.
pub record Represents (c : Config) (h : Handle) (m : Mem) (l : Log) : Type 0 where
  pub config : HasConfig c m
  pub next : load 4 28 m ≡ l.next
  pub entries : (i : ℕ) → i < c.num_rows → IsEntry c h m i (l.entry i)
