-- ===== src/Counter/Bank.antt =====
-- The counters as values, marks and labels by index, and what the operations do to them.
use log2mem.Prelude.{ℕ, ◌+◌, ◌*◌, ◌%◌, ◌<◌, ◌≡◌, refl}
use log2mem.Prelude.{if◌then◌else◌, ◌==◌, ==_of_eq, ==_of_ne, List, u32}
use log2mem.Memory.{Mem, load, read_bytes}
use log2mem.Config.{Config}
use log2mem.State.{Handle}
use log2mem.Ready.{HasConfig}
use log2mem.Element.{text_bytes}

-- One counter: its value, whether it is marked as used, and the 63 bytes of its label.
pub record Cell : Type 0 where
  pub value : ℕ
  pub used : ℕ
  pub label : List ℕ

abbrev pub Bank : Type 0
Bank = ℕ → Cell

abbrev pub set_cell : ℕ → Cell → Bank → Bank
set_cell i x b j = if i == j then x else b j

-- The index of an id.
abbrev pub index : Config → ℕ → ℕ
index c id = id % c.num_counters

unfoldable pub bank_add : Config → ℕ → ℕ → Bank → Bank
bank_add c id v b =
    set_cell (index c id)
      (record {
        value = u32 ((b (index c id)).value + v);
        used = (b (index c id)).used;
        label = (b (index c id)).label;
      })
      b

unfoldable pub bank_label : Config → ℕ → List ℕ → Bank → Bank
bank_label c id src b =
    set_cell (index c id)
      (record { value = (b (index c id)).value; used = 1; label = text_bytes 63 src }) b

abbrev pub counter_cell : Handle → ℕ → ℕ
counter_cell h i = h.counters + i * 8

abbrev pub label_cell : Handle → ℕ → ℕ
label_cell h i = h.counter_labels + i * 64

-- The map holds this counter at index `i`; its label ends with a NUL.
pub record IsCell (h : Handle) (m : Mem) (i : ℕ) (x : Cell) : Type 0 where
  pub value : load 4 (counter_cell h i) m ≡ x.value
  pub used : load 4 (counter_cell h i + 4) m ≡ x.used
  pub label : read_bytes 63 (label_cell h i) m ≡ x.label
  pub terminated : m (label_cell h i + 63) ≡ 0

pub record HasBank (c : Config) (h : Handle) (m : Mem) (b : Bank) : Type 0 where
  pub config : HasConfig c m
  pub cells : (i : ℕ) → i < c.num_counters → IsCell h m i (b i)

pub set_cell_self : (i : ℕ) (x : Cell) (b : Bank) → set_cell i x b i ≡ x
set_cell_self i x b = rw (==_of_eq i i refl)

pub set_cell_ne : (i j : ℕ) (x : Cell) (b : Bank) → (i ≡ j → ⊥) → set_cell i x b j ≡ b j
set_cell_ne i j x b d = rw (==_of_ne i j d)
