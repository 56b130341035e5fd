-- ===== src/Prelude/Word.antt =====
-- Machine words as natural numbers below a power of two, and what C does to them on x86-64.
use Prim.Native.Nat.{ℕ, ◌+◌, ◌-◌, ◌%◌, ◌^◌}
use mathlib.Core.Bool.{Bool}
use log2mem.Prelude.Tests.{ltb, leb, if◌then◌else◌}

abbrev pub u32 : ℕ → ℕ
u32 n = n % 2 ^ 32

abbrev pub u64 : ℕ → ℕ
u64 n = n % 2 ^ 64

-- `int` to a 64-bit type.
abbrev pub sext : ℕ → ℕ
sext n = if ltb n (2 ^ 31) then n else n + (2 ^ 64 - 2 ^ 32)

-- `a <= b` of two `int`s, given by their bit patterns.
abbrev pub leb_int : ℕ → ℕ → Bool
leb_int a b = leb (u32 (a + 2 ^ 31)) (u32 (b + 2 ^ 31))

-- `a - b` in `unsigned int`.
abbrev pub sub32 : ℕ → ℕ → ℕ
sub32 a b = u32 (a + 2 ^ 32 - b)
