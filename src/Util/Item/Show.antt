-- ===== src/Util/Item/Show.antt =====
-- The loop over the items of a row ends, and shows the items that the row holds.
use log2mem.Prelude.{
  ℕ, zero, suc, ◌+◌, ◌-◌, ◌*◌, ◌^◌, ◌≤◌, ◌<◌, ◌≡◌, refl, ap, ◌⊎◌, inl, inr, arith, ◌==◌,
  if◌then◌else◌, Bool, Bool-cases,
}
use log2mem.Prelude.{
  List, [], ◌∷◌, ◌++◌, length, take, codes, u32, u64, sext, ltb_of_le, ltb_of_lt, ==_of_eq,
  ==_of_ne,
}
use mathlib.Core.Path.{subst}
use native.Mathlib.Decide.{ℕ_discrete}
use log2mem.Memory.{Mem, load, read_bytes}
use log2mem.Create.{decimal}
use log2mem.Row.{c_string}
use log2mem.Row.Item.{Item, Holds, items_size, item_size}
use log2mem.Util.Run.{done, out_of_fuel}
use log2mem.Util.Format.{Libc, Globals, signed, show_int, read_text}
use log2mem.Util.Item.{
  Tag, filename, lineno, string, uint, int, ulong, long, float, double, char, no_case, tag_of,
  show_data, width, delim_after, delim_before, show_items,
}

-- The number in some bytes, and the text up to the first NUL.
abbrev pub of_bytes : List ℕ → ℕ
of_bytes [] = 0
of_bytes (b ∷ bs) = b + 256 * of_bytes bs

unfoldable pub up_to_nul : List ℕ → List ℕ
up_to_nul [] = []
up_to_nul (b ∷ bs) = if b == 0 then [] else b ∷ up_to_nul bs

abbrev pub HasNul : List ℕ → Type 0
HasNul [] = ⊥
HasNul (b ∷ bs) = (b ≡ 0) ⊎ HasNul bs

pub c_string-HasNul : (text : List ℕ) → HasNul (c_string text)
c_string-HasNul [] = inl refl
c_string-HasNul (b ∷ text) = inr (c_string-HasNul text)

-- What an item looks like, by its tag and its bytes.
unfoldable pub data_text : Libc → Globals → Tag → List ℕ → List ℕ
data_text lc g filename bs = if g.terse then [] else codes "(" ++ up_to_nul bs ++ codes ":"
data_text lc g lineno bs = if g.terse then [] else show_int (of_bytes (take 4 bs)) ++ codes ") "
data_text lc g string bs = up_to_nul bs
data_text lc g uint bs = decimal (of_bytes (take 4 bs))
data_text lc g int bs = show_int (of_bytes (take 4 bs))
data_text lc g ulong bs = decimal (of_bytes (take 8 bs))
data_text lc g long bs = signed 64 (of_bytes (take 8 bs))
data_text lc g float bs = lc.show_float (of_bytes (take 4 bs))
data_text lc g double bs = lc.show_double (of_bytes (take 8 bs))
data_text lc g char bs = of_bytes (take 1 bs) ∷ []
data_text lc g no_case bs = []

-- The items of a row one after another, with the delimiter before each but the first and those that
-- follow the place of the call.
unfoldable pub items_text : Libc → Globals → Bool → List Item → List ℕ
items_text lc g wantdelim [] = []
items_text lc g wantdelim (x ∷ xs) =
    delim_before g wantdelim
    ++ data_text lc g (tag_of x.kind) x.bytes
    ++ items_text lc g (delim_after (tag_of x.kind)) xs

-- The bytes are enough for what the case of the switch reads.
abbrev pub NulIfText : Tag → List ℕ → Type 0
NulIfText filename bs = HasNul bs
NulIfText string bs = HasNul bs
NulIfText lineno bs = Unit
NulIfText uint bs = Unit
NulIfText int bs = Unit
NulIfText ulong bs = Unit
NulIfText long bs = Unit
NulIfText float bs = Unit
NulIfText double bs = Unit
NulIfText char bs = Unit
NulIfText no_case bs = Unit

pub record IsShowable (x : Item) : Type 0 where
  pub wide : width (tag_of x.kind) ≤ length x.bytes
  pub nul : NulIfText (tag_of x.kind) x.bytes

abbrev pub AreShowable : List Item → Type 0
AreShowable [] = Unit
AreShowable (x ∷ xs) = IsShowable x × AreShowable xs

head_or_zero : List ℕ → ℕ
head_or_zero [] = 0
head_or_zero (b ∷ bs) = b

tail_of : List ℕ → List ℕ
tail_of [] = []
tail_of (b ∷ bs) = bs

pub first_byte : (a b : ℕ) (xs bs : List ℕ) → a ∷ xs ≡ b ∷ bs → a ≡ b
unfolding head_or_zero
first_byte a b xs bs e = ap head_or_zero e

pub other_bytes : (a b : ℕ) (xs bs : List ℕ) → a ∷ xs ≡ b ∷ bs → xs ≡ bs
unfolding tail_of
other_bytes a b xs bs e = ap tail_of e

load-of_bytes :
    (n a : ℕ) (bs : List ℕ) (m : Mem)
    → read_bytes (length bs) a m ≡ bs
    → n ≤ length bs
    → load n a m ≡ of_bytes (take n bs)
unfolding load read_bytes
load-of_bytes zero a bs m e h = refl
load-of_bytes (suc n) a [] m e h = absurd (omega arith)
load-of_bytes (suc n) a (b ∷ bs) m e h = omega (
  arith,
  first_byte (m a) b _ bs e,
  load-of_bytes n (a + 1) bs m (other_bytes (m a) b _ bs e) (omega arith),
)

pub read_text_lem :
    (n a : ℕ) (bs : List ℕ) (m : Mem)
    → read_bytes (length bs) a m ≡ bs
    → HasNul bs
    → length bs ≤ n
    → read_text n a m ≡ done (up_to_nul bs)
unfolding read_text read_bytes up_to_nul
read_text_lem n a [] m e h fits = absurd h
read_text_lem zero a (b ∷ bs) m e h fits = absurd (omega arith)
read_text_lem (suc n) a (b ∷ bs) m e h fits = elim (ℕ_discrete b 0) [
  | yes z ↦ rw (first_byte (m a) b _ bs e, ==_of_eq b 0 z) refl
  | no d ↦
      rw
        (
          first_byte (m a) b _ bs e,
          ==_of_ne b 0 d,
          read_text_lem n (a + 1) bs m (other_bytes (m a) b _ bs e)
              (elim h [ inl z ↦ absurd (d z) | inr more ↦ more ]) (omega arith),
        )
        refl
]

-- A case of the switch shows the bytes that it points to.
show_data_lem :
    (lc : Libc) (g : Globals) (size : ℕ) (t : Tag) (a : ℕ) (bs : List ℕ) (m : Mem)
    → read_bytes (length bs) a m ≡ bs
    → width t ≤ length bs
    → NulIfText t bs
    → length bs ≤ size - a
    → show_data lc g size t a m ≡ done (data_text lc g t bs)
unfolding show_data data_text
show_data_lem lc g size filename a bs m e w n fits = elim (Bool-cases g.terse) [
  | inl p ↦ rw p refl
  | inr p ↦ rw (p, read_text_lem (size - a) a bs m e n fits) refl
]
show_data_lem lc g size lineno a bs m e w n fits = elim (Bool-cases g.terse) [
  | inl p ↦ rw p refl
  | inr p ↦ rw (p, load-of_bytes 4 a bs m e w) refl
]
show_data_lem lc g size string a bs m e w n fits = read_text_lem (size - a) a bs m e n fits
show_data_lem lc g size uint a bs m e w n fits = rw (load-of_bytes 4 a bs m e w) refl
show_data_lem lc g size int a bs m e w n fits = rw (load-of_bytes 4 a bs m e w) refl
show_data_lem lc g size ulong a bs m e w n fits = rw (load-of_bytes 8 a bs m e w) refl
show_data_lem lc g size long a bs m e w n fits = rw (load-of_bytes 8 a bs m e w) refl
show_data_lem lc g size float a bs m e w n fits = rw (load-of_bytes 4 a bs m e w) refl
show_data_lem lc g size double a bs m e w n fits = rw (load-of_bytes 8 a bs m e w) refl
show_data_lem lc g size char a bs m e w n fits = rw (load-of_bytes 1 a bs m e w) refl
show_data_lem lc g size no_case a bs m e w n fits = refl

hdr_address : (row i : ℕ) → row + 24 + i < 2 ^ 31 → u64 (row + 24 + sext i) ≡ row + 24 + i
hdr_address row i h = ground arith

-- Over a row whose payload holds some showable items the loop ends within as many rounds as there
-- are items and one more, and shows them; from offset `off` on, it shows the items from there on.
pub show_items-eq-items_text :
    (lc : Libc) (g : Globals) (size fuel row off : ℕ) (want : Bool) (xs : List Item) (m : Mem)
    → load 4 (row + 20) m ≡ off + items_size xs
    → Holds m (row + 24 + off) xs
    → AreShowable xs
    → length xs < fuel
    → row + 24 + off + items_size xs ≤ size
    → size < 2 ^ 31
    → show_items lc g size fuel row off want m ≡ done (items_text lc g want xs)
unfolding show_items items_text
show_items-eq-items_text lc g size zero row off want xs m len h ok enough inside small =
    absurd (omega arith)
show_items-eq-items_text lc g size (suc fuel) row off want [] m len h ok enough inside small =
    rw (ltb_of_le off (load 4 (row + 20) m) (omega (arith, len))) refl
show_items-eq-items_text lc g size (suc fuel) row off want (x ∷ xs) m len h ok enough inside small =
    rw
      (
        ltb_of_lt off (load 4 (row + 20) m) (omega (arith, len)),
        hdr_address row off (omega arith),
        h.0,
        h.1,
        ltb_of_le size (row + 24 + off + 8 + width (tag_of x.kind)) (omega (arith, ok.0.wide)),
        show_data_lem lc g size (tag_of x.kind) (row + 24 + off + 8) x.bytes m h.2 ok.0.wide
            ok.0.nul (omega arith),
        next,
        show_items-eq-items_text lc g size fuel row (off + item_size x)
            (delim_after (tag_of x.kind)) xs m (omega (arith, len)) held ok.1 (omega arith)
            (omega arith) small,
      )
      refl
  where
    next : u32 (off + item_size x) ≡ off + item_size x
    next = omega arith

    held : Holds m (row + 24 + (off + item_size x)) xs
    held = subst (λ t. Holds m t xs) (omega arith) h.3

-- A header of length 0 inside a row keeps the loop from ending, however many rounds it is given: the
-- offset is that of an item that can be shown, and its header counts no byte.
pub show_items_stuck :
    (lc : Libc) (g : Globals) (size fuel row i : ℕ) (want : Bool) (text : List ℕ) (m : Mem)
    → i < 2 ^ 31
    → row + 32 + i < 2 ^ 31
    → i < load 4 (row + 20) m
    → load 4 (row + 24 + i + 4) m ≡ 0
    → row + 24 + i + 8 + width (tag_of (load 1 (row + 24 + i) m)) ≤ size
    → show_data lc g size (tag_of (load 1 (row + 24 + i) m)) (row + 24 + i + 8) m ≡ done text
    → show_items lc g size fuel row i want m ≡ out_of_fuel
unfolding show_items
show_items_stuck lc g size zero row i want text m below near inside empty room shown = refl
show_items_stuck lc g size (suc fuel) row i want text m below near inside empty room shown =
    rw
      (
        ltb_of_lt i (load 4 (row + 20) m) inside,
        hdr_address row i (omega arith),
        ltb_of_le size (row + 24 + i + 8 + width (tag_of (load 1 (row + 24 + i) m))) room,
        shown,
        same,
        show_items_stuck lc g size fuel row i (delim_after (tag_of (load 1 (row + 24 + i) m))) text
            m below near inside empty room shown,
      )
      refl
  where
    same : u32 (i + load 4 (row + 24 + i + 4) m) ≡ i
    same = omega (arith, empty)
