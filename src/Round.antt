-- ===== src/Round.antt =====
-- `round_up_next_power_of_2_uint` of liblog2mem/log2mem.c, which `__log2mem_create` applies to the
-- number of counters, rows and variables.
pub mod Smear
pub mod Power
use log2mem.Prelude.{ℕ, ◌+◌, ◌-◌, ◌/◌, ◌^◌, bit_or, u32, sub32}

-- `v |= v >> j`
pub smear : ℕ → ℕ → ℕ
smear j v = bit_or v (v / 2 ^ j)

unfoldable pub round_up_next_power_of_2 : ℕ → ℕ
unfolding smear
round_up_next_power_of_2 v = u32 (smear 16 (smear 8 (smear 4 (smear 2 (smear 1 (sub32 v 1))))) + 1)
