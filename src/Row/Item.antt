-- ===== src/Row/Item.antt =====
-- What a row holds, as a list of items: the abstract view of its payload.
use log2mem.Prelude.{ℕ, ◌+◌, ◌≤◌, ◌≡◌, ◌∙◌, ◌⊎◌, arith}
use log2mem.Prelude.{List, [], ◌∷◌, ◌++◌, length, leb, if◌then◌else◌}
use mathlib.Core.Path.{subst}
use log2mem.Memory.{Mem, load, read_bytes}
use log2mem.Memory.Frame.{Frame, load-Frame, read_bytes-Frame}

-- A value of a row: its `MEMLOG_DATATYPE_…` and its bytes.
pub record Item : Type 0 where
  pub kind : ℕ
  pub bytes : List ℕ

-- Its header has 8 bytes.
abbrev pub item_size : Item → ℕ
item_size i = 8 + length i.bytes

abbrev pub items_size : List Item → ℕ
items_size [] = 0
items_size (i ∷ is) = item_size i + items_size is

-- The items stand one behind the other from address `a` on, each behind its header.
abbrev pub Holds : Mem → ℕ → List Item → Type 0
Holds m a [] = Unit
Holds m a (i ∷ is) =
    (load 1 a m ≡ i.kind)
    × (load 4 (a + 4) m ≡ item_size i)
    × (read_bytes (length i.bytes) (a + 8) m ≡ i.bytes)
    × Holds m (a + item_size i) is

-- The row at `r` holds exactly these items.
pub record IsRow (m : Mem) (r : ℕ) (is : List Item) : Type 0 where
  pub datalen : load 4 (r + 20) m ≡ items_size is
  pub payload : Holds m (r + 24) is

-- An item is appended if the payload has room for it, and dropped if not.
abbrev pub append_item : ℕ → List Item → Item → List Item
append_item row_len is i = if leb (items_size is + item_size i) row_len then is ++ i ∷ [] else is

pub items_size-append : (is js : List Item) → items_size (is ++ js) ≡ items_size is + items_size js
items_size-append [] js = omega arith
items_size-append (i ∷ is) js = omega (arith, items_size-append is js)

pub append_item-le :
    (row_len : ℕ) (is : List Item) (i : Item)
    → items_size is ≤ row_len
    → items_size (append_item row_len is i) ≤ row_len
append_item-le row_len is i h = ground (arith, items_size-append is (i ∷ []))

-- A write outside the items does not change them.
pub Holds-Frame :
    (is : List Item) (a : ℕ) {lo hi : ℕ} {m m' : Mem}
    → (a + items_size is ≤ lo) ⊎ (hi ≤ a)
    → Frame lo hi m m'
    → Holds m a is
    → Holds m' a is
Holds-Frame [] a out f h = tt
Holds-Frame (i ∷ is) a {lo} {hi} out f h = (
  load-Frame 1 a {lo = lo} {hi = hi} (omega arith) f ∙ h.0,
  load-Frame 4 (a + 4) {lo = lo} {hi = hi} (omega arith) f ∙ h.1,
  read_bytes-Frame (length i.bytes) (a + 8) {lo = lo} {hi = hi} (omega arith) f ∙ h.2,
  Holds-Frame is (a + item_size i) (omega arith) f h.3,
)

pub Holds-append :
    (is : List Item) (i : Item) (m : Mem) (a b : ℕ)
    → b ≡ a + items_size is
    → Holds m a is
    → Holds m b (i ∷ [])
    → Holds m a (is ++ i ∷ [])
Holds-append [] i m a b e h g = subst (λ t. Holds m t (i ∷ [])) (e ∙ omega arith) g
Holds-append (j ∷ is) i m a b e h g =
    (h.0, h.1, h.2, Holds-append is i m (a + item_size j) b (omega arith) h.3 g)

pub IsRow-Frame :
    (is : List Item) (r : ℕ) {lo hi : ℕ} {m m' : Mem}
    → (r + 24 + items_size is ≤ lo) ⊎ (hi ≤ r + 20)
    → Frame lo hi m m'
    → IsRow m r is
    → IsRow m' r is
IsRow-Frame is r {lo} {hi} out f h = record {
  datalen = load-Frame 4 (r + 20) {lo = lo} {hi = hi} (omega arith) f ∙ h.datalen;
  payload = Holds-Frame is (r + 24) (omega arith) f h.payload;
}
