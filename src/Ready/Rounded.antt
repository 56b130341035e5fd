-- ===== src/Ready/Rounded.antt =====
-- The counts that `__log2mem_create` stores are powers of two, whatever the user asked for.
use log2mem.Prelude.{ℕ, ◌^◌, ◌<◌, ◌≡◌, refl, ◌⊎◌, inl, inr, arith}
use native.Mathlib.Decide.{ℕ_discrete, dec_lt}
use log2mem.Round.{round_up_next_power_of_2}
use log2mem.Round.Power.{round_up-IsLeastPower, round_up_overflow}
use log2mem.Config.{Config, IsConfig}
use log2mem.Create.{round_config, at_least_one}
use log2mem.Ready.{IsPowerOfTwo, IsRounded}
use log2mem.Ready.Index.{IsPowerOfTwo-pos, IsPowerOfTwo-le}

round_up_cases :
    (v : ℕ)
    → v < 2 ^ 32
    → (round_up_next_power_of_2 v ≡ 0) ⊎ IsPowerOfTwo (round_up_next_power_of_2 v)
round_up_cases v fits = elim (ℕ_discrete v 0) [
  | yes e ↦ inl (round_up_overflow v (inl e))
  | no ne ↦ elim (dec_lt (2 ^ 31) v) [
    | yes large ↦ inl (round_up_overflow v (inr (large, fits)))
    | no small ↦
        let r = round_up-IsLeastPower v (omega arith) (omega arith) in
        inr (record { exponent = r.exponent; is_power = r.is_power; small = r.small })
  ]
]

at_least_one-IsPowerOfTwo : (n : ℕ) → (n ≡ 0) ⊎ IsPowerOfTwo n → IsPowerOfTwo (at_least_one n)
at_least_one-IsPowerOfTwo n (inl e) =
    rw e (record { exponent = 0; is_power = refl; small = omega arith })
at_least_one-IsPowerOfTwo n (inr p) =
    let same : at_least_one n ≡ n = ground (arith, IsPowerOfTwo-pos p, IsPowerOfTwo-le p) in
    rw same p

-- Of a configuration of 32-bit fields, the stored numbers of counters and of rows are powers of
-- two; the stored number of variables is one or 0.
pub round_config-IsRounded : (c : Config) → IsConfig c → IsRounded (round_config c)
unfolding round_config
round_config-IsRounded c v = record {
  counters = at_least_one-IsPowerOfTwo _ (round_up_cases c.num_counters v.num_counters_fit);
  rows = at_least_one-IsPowerOfTwo _ (round_up_cases c.num_rows v.num_rows_fit);
  vars = round_up_cases c.num_vars v.num_vars_fit;
}

IsPowerOfTwo-fit : {n : ℕ} → (n ≡ 0) ⊎ IsPowerOfTwo n → n < 2 ^ 32
IsPowerOfTwo-fit (inl e) = omega arith
IsPowerOfTwo-fit (inr p) = omega (arith, IsPowerOfTwo-le p)

pub round_config-IsConfig : (c : Config) → IsConfig c → IsConfig (round_config c)
unfolding round_config
round_config-IsConfig c v = record {
  options_fit = v.options_fit;
  num_counters_fit =
      IsPowerOfTwo-fit
        (inr (at_least_one-IsPowerOfTwo _ (round_up_cases c.num_counters v.num_counters_fit)));
  num_rows_fit =
      IsPowerOfTwo-fit
        (inr (at_least_one-IsPowerOfTwo _ (round_up_cases c.num_rows v.num_rows_fit)));
  row_len_fit = v.row_len_fit;
  num_vars_fit = IsPowerOfTwo-fit (round_up_cases c.num_vars v.num_vars_fit);
}
