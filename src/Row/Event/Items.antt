-- ===== src/Row/Event/Items.antt =====
-- The items of an event, and that the code writes them one behind the other.
use log2mem.Prelude.{ℕ, ◌+◌, ◌^◌, ◌≤◌, ◌<◌, ◌≡◌, refl, ◌∙◌, inl, arith, ltb_of_le}
use log2mem.Prelude.{
  Option, none, some, List, [], ◌∷◌, ◌++◌, length, length-append, length-take, take, u32, sext,
}
use log2mem.Memory.{Mem, write_bytes, le_bytes}
use log2mem.Memory.Frame.{Frame, write_bytes-Frame, store-eq-write_bytes, length-le_bytes}
use log2mem.Row.{put_hdr, datatype_int}
use log2mem.Row.Item.{Item, Holds, Holds-Frame, items_size, item_size}
use log2mem.Row.Push.{put_item, put_hdr-Frame, with_nul, length-text}
use mathlib.Core.Logic.{ite}
use native.Mathlib.Decide.{dec_lt}
use log2mem.Row.Event.{has_text, put_int, put_text, event_len}

-- Items written one behind the other.
unfoldable pub put_items : ℕ → List Item → Mem → Mem
put_items p [] m = m
put_items p (x ∷ xs) m =
    put_items (p + item_size x) xs
      (write_bytes (p + 8) x.bytes (put_hdr p x.kind (length x.bytes) m))

unfoldable pub AreItems : List Item → Type 0
AreItems [] = Unit
AreItems (x ∷ xs) = (x.kind < 256) × (length x.bytes + 8 < 2 ^ 31) × AreItems xs

pub put_items-Frame :
    (p : ℕ) (xs : List Item) (m : Mem) → Frame p (p + items_size xs) m (put_items p xs m)
unfolding put_items
put_items-Frame p [] m b h = refl
put_items-Frame p (x ∷ xs) m b h =
    put_items-Frame (p + item_size x) xs _ b (omega arith)
    ∙ write_bytes-Frame (p + 8) x.bytes _ b (omega arith)
    ∙ put_hdr-Frame p x.kind (length x.bytes) m b (omega arith)

pub put_items-Holds :
    (p : ℕ) (xs : List Item) (m : Mem) → AreItems xs → Holds (put_items p xs m) p xs
unfolding put_items AreItems
put_items-Holds p [] m ok = tt
put_items-Holds p (x ∷ xs) m ok =
    let first = put_item p x.kind x.bytes m ok.0 ok.1 in
    let kept =
      Holds-Frame (x ∷ []) p (inl (omega arith)) (put_items-Frame (p + item_size x) xs _) first in
    (kept.0, kept.1, kept.2, put_items-Holds (p + item_size x) xs _ ok.2)

abbrev pub int_item : ℕ → Item
int_item v = record { kind = 4; bytes = le_bytes 4 v }

-- The items of an event: two numbers, and the text if there is one.
abbrev pub event_items : ℕ → ℕ → Option (List ℕ) → ℕ → List Item
event_items flowid msgref none len = int_item flowid ∷ int_item msgref ∷ []
event_items flowid msgref (some str) len =
    int_item flowid ∷ int_item msgref ∷ record { kind = 2; bytes = take len str ++ 0 ∷ [] } ∷ []

-- The text that an event has: one that is given, if its length as an `int` is positive.
abbrev pub event_text : Option (List ℕ) → ℕ → Option (List ℕ)
event_text none len = none
event_text (some str) len = ite (dec_lt 0 len) (ite (dec_lt len (2 ^ 31)) (some str) none) none

pub has_text_lem : (str : Option (List ℕ)) (len : ℕ) → has_text str len ≡ event_text str len
unfolding has_text
has_text_lem none len = refl
has_text_lem (some str) len = ground arith

-- The object has the bytes that are asked for, and they fit a row's size.
abbrev pub IsText : Option (List ℕ) → ℕ → Type 0
IsText none len = Unit
IsText (some str) len = (len ≤ length str) × (len + 40 < 2 ^ 31)

put_int_lem :
    (p v : ℕ) (m : Mem)
    → put_int p v m
      ≡ write_bytes (p + 8) (le_bytes 4 v) (put_hdr p datatype_int (length (le_bytes 4 v)) m)
unfolding put_int
put_int_lem p v m =
    rw (length-le_bytes 4 v) (store-eq-write_bytes 4 (p + 8) v (put_hdr p datatype_int 4 m))

pub items_put :
    (p flowid msgref : ℕ) (text : Option (List ℕ)) (len : ℕ) (m : Mem)
    → IsText text len
    → put_text (p + 24) text len (put_int (p + 12) msgref (put_int p flowid m))
      ≡ some (put_items p (event_items flowid msgref text len) m)
unfolding put_text put_items
items_put p flowid msgref none len m ok =
    rw
      (
        put_int_lem (p + 12) msgref (put_int p flowid m),
        put_int_lem p flowid m,
        length-le_bytes 4 flowid,
        length-le_bytes 4 msgref,
      )
      refl
items_put p flowid msgref (some str) len m ok =
    rw
      (
        put_int_lem (p + 12) msgref (put_int p flowid m),
        put_int_lem p flowid m,
        length-le_bytes 4 flowid,
        length-le_bytes 4 msgref,
        ltb_of_le (length str) len ok.0,
        length-text 0 0 len str m ok.0 (omega (arith, ok.1)),
        with_nul 0 0 len str m ok.0 (omega (arith, ok.1)) (p + 24 + 8),
        assoc,
      )
      refl
  where
    assoc : p + 12 + 12 ≡ p + 24
    assoc = omega arith

pub event_items-AreItems :
    (flowid msgref : ℕ) (text : Option (List ℕ)) (len : ℕ)
    → IsText text len
    → AreItems (event_items flowid msgref text len)
unfolding AreItems
event_items-AreItems flowid msgref none len ok = (
  omega arith,
  omega (arith, length-le_bytes 4 flowid),
  (omega arith, omega (arith, length-le_bytes 4 msgref), tt),
)
event_items-AreItems flowid msgref (some str) len ok = (
  omega arith,
  omega (arith, length-le_bytes 4 flowid),
  (
    omega arith,
    omega (arith, length-le_bytes 4 msgref),
    (
      omega arith,
      omega (arith, length-append (take len str) (0 ∷ []), length-take len str, ok.1),
      tt,
    ),
  ),
)

pub event_len_lem :
    (flowid msgref : ℕ) (text : Option (List ℕ)) (len : ℕ)
    → IsText text len
    → event_len text len ≡ items_size (event_items flowid msgref text len)
unfolding event_len
event_len_lem flowid msgref none len ok =
    omega (arith, length-le_bytes 4 flowid, length-le_bytes 4 msgref)
event_len_lem flowid msgref (some str) len ok =
    let exact : sext (u32 (len + 1)) ≡ len + 1 = ground (arith, ok.1) in
    omega (
      arith,
      exact,
      length-le_bytes 4 flowid,
      length-le_bytes 4 msgref,
      length-append (take len str) (0 ∷ []),
      length-take len str,
      ok.0,
      ok.1,
    )

pub event_items-lt :
    (flowid msgref : ℕ) (text : Option (List ℕ)) (len : ℕ)
    → IsText text len
    → items_size (event_items flowid msgref text len) < 2 ^ 31
event_items-lt flowid msgref none len ok =
    omega (arith, length-le_bytes 4 flowid, length-le_bytes 4 msgref)
event_items-lt flowid msgref (some str) len ok = omega (
  arith,
  length-le_bytes 4 flowid,
  length-le_bytes 4 msgref,
  length-append (take len str) (0 ∷ []),
  length-take len str,
  ok.1,
)
