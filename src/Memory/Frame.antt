-- ===== src/Memory/Frame.antt =====
-- What a store or a copy leaves alone, and what is read back after it.
use log2mem.Prelude.{ℕ, zero, suc, ◌+◌, ◌*◌, ◌/◌, ◌%◌, ◌^◌, ◌≤◌, ◌<◌}
use log2mem.Prelude.{
  List, [], ◌∷◌, ◌++◌, ◌≡◌, refl, ◌∙◌, sym, ap, ◌⊎◌, inl, arith, length, replicate,
}
use native.Mathlib.Nat.{pow-suc}
use mathlib.Core.Path.{ap₂}
use native.Mathlib.Decide.{ℕ_discrete}
use log2mem.Memory.{Mem, put, load, store, fill, read_bytes, write_bytes, le_bytes}

put_ne : (a v : ℕ) (m : Mem) (b : ℕ) → (b < a) ⊎ (a < b) → put a v m b ≡ m b
unfolding put
put_ne a v m b h = ground arith

put_self : (a v : ℕ) (m : Mem) → put a v m a ≡ v
unfolding put
put_self a v m = ground arith

-- The two memories agree outside `[lo, hi)`.
abbrev pub Frame : ℕ → ℕ → Mem → Mem → Type 0
Frame lo hi m m' = (b : ℕ) → (b < lo) ⊎ (hi ≤ b) → m' b ≡ m b

pub Frame-trans :
    {lo hi : ℕ} {m m' m'' : Mem} → Frame lo hi m m' → Frame lo hi m' m'' → Frame lo hi m m''
Frame-trans f g b h = g b h ∙ f b h

pub Frame-widen :
    {lo hi lo' hi' : ℕ} {m m' : Mem} → lo' ≤ lo → hi ≤ hi' → Frame lo hi m m' → Frame lo' hi' m m'
Frame-widen {lo} {hi} {lo'} {hi'} p q f b h = f b (omega arith)

pub store-Frame : (n a v : ℕ) (m : Mem) → Frame a (a + n) m (store n a v m)
unfolding store
store-Frame zero a v m b h = refl
store-Frame (suc n) a v m b h =
    store-Frame n (a + 1) (v / 256) (put a (v % 256) m) b (omega arith)
    ∙ put_ne a (v % 256) m b (omega arith)

pub write_bytes-Frame :
    (a : ℕ) (xs : List ℕ) (m : Mem) → Frame a (a + length xs) m (write_bytes a xs m)
unfolding write_bytes
write_bytes-Frame a [] m b h = refl
write_bytes-Frame a (x ∷ xs) m b h =
    write_bytes-Frame (a + 1) xs (put a x m) b (omega arith) ∙ put_ne a x m b (omega arith)

pub load_ext :
    (n a : ℕ) {m m' : Mem} → ((b : ℕ) → a ≤ b → b < a + n → m' b ≡ m b) → load n a m' ≡ load n a m
unfolding load
load_ext zero a h = refl
load_ext (suc n) a h =
    ap₂ (λ x y. x + 256 * y) (h a (omega arith) (omega arith))
      (load_ext n (a + 1) (λ b p q. h b (omega arith) (omega arith)))

pub read_bytes_ext :
    (n a : ℕ) {m m' : Mem}
    → ((b : ℕ) → a ≤ b → b < a + n → m' b ≡ m b)
    → read_bytes n a m' ≡ read_bytes n a m
unfolding read_bytes
read_bytes_ext zero a h = refl
read_bytes_ext (suc n) a h =
    ap₂ ◌∷◌ (h a (omega arith) (omega arith))
      (read_bytes_ext n (a + 1) (λ b p q. h b (omega arith) (omega arith)))

-- A load that lies outside what was written reads what it did before.
pub load-Frame :
    (n a : ℕ) {lo hi : ℕ} {m m' : Mem}
    → (a + n ≤ lo) ⊎ (hi ≤ a)
    → Frame lo hi m m'
    → load n a m' ≡ load n a m
load-Frame n a {lo} {hi} h f = load_ext n a (λ b p q. f b (omega arith))

pub read_bytes-Frame :
    (n a : ℕ) {lo hi : ℕ} {m m' : Mem}
    → (a + n ≤ lo) ⊎ (hi ≤ a)
    → Frame lo hi m m'
    → read_bytes n a m' ≡ read_bytes n a m
read_bytes-Frame n a {lo} {hi} h f = read_bytes_ext n a (λ b p q. f b (omega arith))

pub load-store : (n a v : ℕ) (m : Mem) → v < 256 ^ n → load n a (store n a v m) ≡ v
unfolding load store
load-store zero a v m h = omega arith
load-store (suc n) a v m h = omega (
  arith,
  store-Frame n (a + 1) (v / 256) (put a (v % 256) m) a (inl (omega arith)),
  put_self a (v % 256) m,
  load-store n (a + 1) (v / 256) (put a (v % 256) m) (omega (arith, pow-suc 256 n)),
)

pub read_bytes-write_bytes :
    (a : ℕ) (xs : List ℕ) (m : Mem) → read_bytes (length xs) a (write_bytes a xs m) ≡ xs
unfolding read_bytes write_bytes
read_bytes-write_bytes a [] m = refl
read_bytes-write_bytes a (x ∷ xs) m =
    ap₂ ◌∷◌ (write_bytes-Frame (a + 1) xs (put a x m) a (inl (omega arith)) ∙ put_self a x m)
      (read_bytes-write_bytes (a + 1) xs (put a x m))

pub fill-Frame : (a n v : ℕ) (m : Mem) → Frame a (a + n) m (fill a n v m)
unfolding fill
fill-Frame a n v m b h = ground arith

pub fill_inside : (a n v : ℕ) (m : Mem) (b : ℕ) → a ≤ b → b < a + n → fill a n v m b ≡ v
unfolding fill
fill_inside a n v m b p q = ground arith

-- Copying out and in again moves the bytes.
pub write_bytes-read_bytes :
    (n a : ℕ) (m m' : Mem) (b : ℕ) → a ≤ b → b < a + n → write_bytes a (read_bytes n a m) m' b ≡ m b
unfolding write_bytes read_bytes
write_bytes-read_bytes zero a m m' b p q = absurd (omega arith)
write_bytes-read_bytes (suc n) a m m' b p q = elim (ℕ_discrete a b) [
  | yes e ↦
      write_bytes-Frame (a + 1) (read_bytes n (a + 1) m) (put a (m a) m') b (omega arith)
      ∙ ap (put a (m a) m') (sym e)
      ∙ put_self a (m a) m'
      ∙ ap m e
  | no ne ↦ write_bytes-read_bytes n (a + 1) m (put a (m a) m') b (omega arith) (omega arith)
]

pub length-read_bytes : (n a : ℕ) (m : Mem) → length (read_bytes n a m) ≡ n
unfolding read_bytes
length-read_bytes zero a m = refl
length-read_bytes (suc n) a m = ap suc (length-read_bytes n (a + 1) m)

pub load_of_zeros : (n a : ℕ) {m : Mem} → ((b : ℕ) → a ≤ b → b < a + n → m b ≡ 0) → load n a m ≡ 0
unfolding load
load_of_zeros zero a h = refl
load_of_zeros (suc n) a h = omega (
  arith,
  h a (omega arith) (omega arith),
  load_of_zeros n (a + 1) (λ b p q. h b (omega arith) (omega arith)),
)

pub load-store_ne :
    (n a k b v : ℕ) (m : Mem) → (a + n ≤ b) ⊎ (b + k ≤ a) → load n a (store k b v m) ≡ load n a m
load-store_ne n a k b v m h = load-Frame n a h (store-Frame k b v m)

-- The rules by which `grind` reads a field of four bytes through stores to others.
pub ruleset field_laws = (arith, load-store_ne, load-store)

pub write_bytes-append :
    (a : ℕ) (xs ys : List ℕ) (m : Mem)
    → write_bytes a (xs ++ ys) m ≡ write_bytes (a + length xs) ys (write_bytes a xs m)
unfolding write_bytes
write_bytes-append a [] ys m = ap (λ t. write_bytes t ys m) (omega arith)
write_bytes-append a (x ∷ xs) ys m =
    write_bytes-append (a + 1) xs ys (put a x m)
    ∙ ap (λ t. write_bytes t ys (write_bytes (a + 1) xs (put a x m))) (omega arith)

-- Storing a number copies its bytes.
pub store-eq-write_bytes : (n a v : ℕ) (m : Mem) → store n a v m ≡ write_bytes a (le_bytes n v) m
unfolding store write_bytes le_bytes
store-eq-write_bytes zero a v m = refl
store-eq-write_bytes (suc n) a v m = store-eq-write_bytes n (a + 1) (v / 256) (put a (v % 256) m)

pub length-le_bytes : (n v : ℕ) → length (le_bytes n v) ≡ n
unfolding le_bytes
length-le_bytes zero v = refl
length-le_bytes (suc n) v = ap suc (length-le_bytes n (v / 256))

pub read_bytes_of_zeros :
    (n a : ℕ) {m : Mem} → ((b : ℕ) → a ≤ b → b < a + n → m b ≡ 0) → read_bytes n a m ≡ replicate n 0
unfolding read_bytes
read_bytes_of_zeros zero a h = refl
read_bytes_of_zeros (suc n) a h =
    ap₂ ◌∷◌ (h a (omega arith) (omega arith))
      (read_bytes_of_zeros n (a + 1) (λ b p q. h b (omega arith) (omega arith)))
