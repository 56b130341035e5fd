-- ===== src/Memory.antt =====
-- The bytes of the memory map, at addresses relative to its start, with the loads and stores that
-- the compiler makes of field accesses and of `memcpy` (x86-64: little endian, unaligned access
-- allowed).
pub mod Frame
use log2mem.Prelude.{
  ℕ, zero, suc, ◌+◌, ◌*◌, ◌/◌, ◌%◌, ◌==◌, ltb, leb, ◌&&◌, if◌then◌else◌, List, [], ◌∷◌,
}

abbrev pub Mem : Type 0
Mem = ℕ → ℕ

unfoldable pub put : ℕ → ℕ → Mem → Mem
put a v m b = if a == b then v else m b

-- An unsigned number of `n` bytes.
unfoldable pub load : ℕ → ℕ → Mem → ℕ
load zero a m = 0
load (suc n) a m = m a + 256 * load n (a + 1) m

-- The low `n` bytes of `v`.
unfoldable pub store : ℕ → ℕ → ℕ → Mem → Mem
unfolding put
store zero a v m = m
store (suc n) a v m = store n (a + 1) (v / 256) (put a (v % 256) m)

unfoldable pub read_bytes : ℕ → ℕ → Mem → List ℕ
read_bytes zero a m = []
read_bytes (suc n) a m = m a ∷ read_bytes n (a + 1) m

-- `memcpy` into the map.
unfoldable pub write_bytes : ℕ → List ℕ → Mem → Mem
unfolding put
write_bytes a [] m = m
write_bytes a (x ∷ xs) m = write_bytes (a + 1) xs (put a x m)

-- `memset` of `n` bytes at `a`.
unfoldable pub fill : ℕ → ℕ → ℕ → Mem → Mem
fill a n v m b = if leb a b && ltb b (a + n) then v else m b

-- The bytes of a number in memory.
unfoldable pub le_bytes : ℕ → ℕ → List ℕ
le_bytes zero v = []
le_bytes (suc n) v = (v % 256) ∷ le_bytes n (v / 256)
