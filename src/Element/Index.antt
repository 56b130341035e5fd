-- ===== src/Element/Index.antt =====
-- An id selects the element of its remainder, elements do not overlap, and a copied text is read back.
use log2mem.Prelude.{
  ℕ, ◌+◌, ◌*◌, ◌%◌, ◌^◌, ◌≤◌, ◌<◌, ◌≡◌, ◌∙◌, ◌⊎◌, inl, inr, sym, ap, arith, sext, List, ◌++◌,
  replicate,
}
use log2mem.Prelude.{length, length-append, length-replicate, length-take}
use native.Mathlib.Nat.{mod-lt}
use native.Mathlib.Decide.{dec_lt}
use log2mem.Memory.{Mem, read_bytes}
use log2mem.Memory.Frame.{Frame, write_bytes-Frame, read_bytes-write_bytes}
use log2mem.Ready.{IsPowerOfTwo}
use log2mem.Ready.Index.{mask_index, IsPowerOfTwo-pos}
use log2mem.Element.{masked, element, text_bytes, strncpy}

-- The end of an element is at most the start of a later one, and the end of the array.
pub cells-le : (i n w : ℕ) → i < n → i * w + w ≤ n * w
cells-le i n w h = grind arith

pub cells_apart :
    (base w i j : ℕ)
    → (i ≡ j → ⊥)
    → (base + i * w + w ≤ base + j * w) ⊎ (base + j * w + w ≤ base + i * w)
cells_apart base w i j ne = elim (dec_lt i j) [
  | yes p ↦ inl (omega (arith, cells-le i j w p))
  | no p ↦ inr (omega (arith, cells-le j i w (omega arith)))
]

pub element_at :
    (base w i n : ℕ) → i < n → 0 < w → base + n * w < 2 ^ 31 → element base w i ≡ base + i * w
unfolding element
element_at base w i n lt pos fits =
    let low : i < 2 ^ 31 = grind (arith, cells-le i n w lt) in
    let same : sext i ≡ i = ground arith in omega (arith, ap (λ t. t * w) same, cells-le i n w lt)

pub masked-lt : (id : ℕ) {n : ℕ} → IsPowerOfTwo n → id % n < n
masked-lt id p = mod-lt id (IsPowerOfTwo-pos p)

-- In an array of a power of two that lies below 2 ^ 31 the id selects the element of its remainder.
pub element-masked :
    (base w id : ℕ) {n : ℕ}
    → IsPowerOfTwo n
    → 0 < w
    → base + n * w < 2 ^ 31
    → element base w (masked id n) ≡ base + id % n * w
element-masked base w id {n} p pos fits =
    ap (element base w) (mask_index id p) ∙ element_at base w (id % n) n (masked-lt id p) pos fits

pub length-text_bytes : (n : ℕ) (s : List ℕ) → length (text_bytes n s) ≡ n
unfolding text_bytes
length-text_bytes n s = omega (
  arith,
  length-take n (s ++ replicate n 0),
  length-append s (replicate n 0),
  length-replicate {A = ℕ} n 0,
)

pub strncpy-Frame : (a n : ℕ) (s : List ℕ) (m : Mem) → Frame a (a + n) m (strncpy a n s m)
unfolding strncpy
strncpy-Frame a n s m b h =
    write_bytes-Frame a (text_bytes n s) m b (omega (arith, length-text_bytes n s))

pub read_bytes-strncpy :
    (a n : ℕ) (s : List ℕ) (m : Mem) → read_bytes n a (strncpy a n s m) ≡ text_bytes n s
unfolding strncpy
read_bytes-strncpy a n s m =
    ap (λ t. read_bytes t a (strncpy a n s m)) (sym (length-text_bytes n s))
    ∙ read_bytes-write_bytes a (text_bytes n s) m
