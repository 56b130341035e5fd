-- ===== src/Ready/Index.antt =====
-- `x & (n - 1)` at a power of two, and the fields of the configuration in the map.
use log2mem.Prelude.{
  ℕ, ◌%◌, ◌^◌, ◌≤◌, ◌<◌, ◌≡◌, ◌⊎◌, ◌∙◌, ap, sym, arith, bit_and, bit_and-low, sub32,
}
use native.Mathlib.Nat.{one-le-pow, pow-le-pow_right, mod-lt}
use log2mem.Memory.{Mem, load}
use log2mem.Memory.Frame.{Frame}
use log2mem.Config.Bytes.{load_config_ext}
use log2mem.Config.{Config, load_config}
use log2mem.Ready.{IsPowerOfTwo, HasConfig}

pub IsPowerOfTwo-pos : {n : ℕ} → IsPowerOfTwo n → 0 < n
IsPowerOfTwo-pos p = omega (arith, p.is_power, one-le-pow p.exponent 2)

pub IsPowerOfTwo-le : {n : ℕ} → IsPowerOfTwo n → n ≤ 2 ^ 31
IsPowerOfTwo-le p = omega (
  arith,
  p.is_power,
  pow-le-pow_right {n = 2} (omega arith) {i = p.exponent} {j = 31} (omega (arith, p.small)),
)

pub mask_index : (a : ℕ) {n : ℕ} → IsPowerOfTwo n → bit_and a (sub32 n 1) ≡ a % n
mask_index a {n} p =
    ap (bit_and a) (omega (arith, p.is_power, IsPowerOfTwo-pos p, IsPowerOfTwo-le p))
    ∙ bit_and-low p.exponent a
    ∙ ap (λ t. a % t) (sym p.is_power)

pub mask_index-lt : (a : ℕ) {n : ℕ} → IsPowerOfTwo n → bit_and a (sub32 n 1) < n
mask_index-lt a {n} p = omega (arith, mask_index a p, mod-lt a (IsPowerOfTwo-pos p))

module _ {c : Config} {m : Mem} (e : HasConfig c m) where
  pub options_at : load 4 32 m ≡ c.options
  unfolding load_config
  options_at = ap (λ t. t.options) e.loads

  pub num_counters_at : load 4 36 m ≡ c.num_counters
  unfolding load_config
  num_counters_at = ap (λ t. t.num_counters) e.loads

  pub num_rows_at : load 4 40 m ≡ c.num_rows
  unfolding load_config
  num_rows_at = ap (λ t. t.num_rows) e.loads

  pub row_len_at : load 4 44 m ≡ c.row_len
  unfolding load_config
  row_len_at = ap (λ t. t.row_len) e.loads

  pub num_vars_at : load 4 48 m ≡ c.num_vars
  unfolding load_config
  num_vars_at = ap (λ t. t.num_vars) e.loads

-- A write outside bytes 32 to 52 leaves the configuration.
pub HasConfig-Frame :
    {c : Config} {lo hi : ℕ} {m m' : Mem}
    → (52 ≤ lo) ⊎ (hi ≤ 32)
    → Frame lo hi m m'
    → HasConfig c m
    → HasConfig c m'
HasConfig-Frame {lo} {hi} out f e = record {
  loads = load_config_ext 32 (λ b p q. f b (omega arith)) ∙ e.loads;
}
