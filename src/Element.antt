-- ===== src/Element.antt =====
-- Arrays in the memory map, as the counters, the labels and the variables are: which element an id
-- selects, and `strncpy` to a text in an element (liblog2mem/log2mem.c).
pub mod Index
use log2mem.Prelude.{ℕ, ◌+◌, ◌*◌, bit_and, List, ◌++◌, take, replicate, u64, sext, sub32}
use log2mem.Prelude.{◌==◌, if◌then◌else◌}
use log2mem.State.{Outcome, undefined}
use log2mem.Memory.{Mem, write_bytes}

-- `id & (n - 1)`, as an `int`.
abbrev pub masked : ℕ → ℕ → ℕ
masked id n = bit_and id (sub32 n 1)

-- `&base[idx]` of an array whose elements have `size` bytes; `idx` is an `int`.
unfoldable pub element : ℕ → ℕ → ℕ → ℕ
element base size idx = u64 (base + sext idx * size)

-- An access to the element that `id & (n - 1)` selects of an array of `n`. With no elements it is not
-- in the array, and C leaves it undefined; otherwise the index is below `n`.
abbrev pub with_element : {A : Type 0} → ℕ → Outcome A → Outcome A
with_element n access = if n == 0 then undefined else access

-- `MEMLOG_LABEL_LEN`
abbrev pub label_len : ℕ
label_len = 64

-- The bytes that `strncpy` writes: the text, cut or padded with NULs.
unfoldable pub text_bytes : ℕ → List ℕ → List ℕ
text_bytes n s = take n (s ++ replicate n 0)

unfoldable pub strncpy : ℕ → ℕ → List ℕ → Mem → Mem
strncpy a n s m = write_bytes a (text_bytes n s) m
