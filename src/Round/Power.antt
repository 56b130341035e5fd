-- ===== src/Round/Power.antt =====
-- What the rounded number is, over the whole range of `unsigned int`.
use log2mem.Prelude.{
  ℕ, suc, ◌-◌, ◌^◌, ◌≤◌, ◌<◌, ◌≡◌, refl, ◌∙◌, ap, arith, u32, sub32, ◌⊎◌, inl, inr,
}
use native.Mathlib.Nat.{pow-le-pow_right, one-le-pow, mod-eq_of_lt}
use native.Mathlib.Decide.{dec_lt, ℕ_discrete}
use log2mem.Round.{round_up_next_power_of_2}
use log2mem.Round.Smear.{top_bit, smear_all}

-- The least power of two that is not below `v`.
pub record IsLeastPower (v r : ℕ) : Type 0 where
  pub exponent : ℕ
  pub is_power : r ≡ 2 ^ exponent
  pub small : exponent < 32
  pub covers : v ≤ r
  pub least : (j : ℕ) → v ≤ 2 ^ j → r ≤ 2 ^ j

round_up_of_top :
    (v n : ℕ)
    → 0 < v
    → v < 2 ^ 32
    → n < 32
    → 2 ^ n ≤ v - 1
    → v - 1 < 2 ^ suc n
    → round_up_next_power_of_2 v ≡ u32 (2 ^ suc n)
unfolding round_up_next_power_of_2
round_up_of_top v n pos fits w lo hi =
    ap u32
      (omega (arith, smear_all n (sub32 v 1) w (omega arith) (omega arith), one-le-pow (suc n) 2))

IsLeastPower-of_top :
    (v n : ℕ)
    → 0 < v
    → n < 31
    → 2 ^ n ≤ v - 1
    → v - 1 < 2 ^ suc n
    → IsLeastPower v (round_up_next_power_of_2 v)
IsLeastPower-of_top v n pos w lo hi = record {
  exponent = suc n;
  is_power = e;
  small = omega arith;
  covers = omega (arith, e);
  least = λ j q. elim (dec_lt n j) [
    | yes p ↦ omega (arith, e, pow-le-pow_right {n = 2} (omega arith) {i = suc n} {j = j} p)
    | no p ↦
        absurd (omega (arith, pow-le-pow_right {n = 2} (omega arith) {i = j} {j = n} (omega arith)))
  ];
}
  where
    top_fits : 2 ^ suc n ≤ 2 ^ 31
    top_fits = pow-le-pow_right {n = 2} (omega arith) {i = suc n} {j = 31} (omega arith)

    e : round_up_next_power_of_2 v ≡ 2 ^ suc n
    e =
        round_up_of_top v n pos (omega (arith, top_fits)) (omega arith) lo hi
        ∙ mod-eq_of_lt (omega (arith, top_fits))

-- For an argument from 1 to 2 ^ 31 the result is the least power of two that is not below it.
pub round_up-IsLeastPower :
    (v : ℕ) → 0 < v → v ≤ 2 ^ 31 → IsLeastPower v (round_up_next_power_of_2 v)
unfolding round_up_next_power_of_2
round_up-IsLeastPower v pos fits = elim (ℕ_discrete v 1) [
  | yes e ↦ rw e (record {
    exponent = 0;
    is_power = refl;
    small = omega arith;
    covers = omega arith;
    least = λ j q. q;
  })
  | no ne ↦
      let (n, w, lo, hi) = top_bit 31 (v - 1) (omega arith) (omega arith) in
      IsLeastPower-of_top v n pos w lo hi
]

-- An argument of 32 bits above 2 ^ 31, and 0, give 0.
pub round_up_overflow :
    (v : ℕ) → (v ≡ 0) ⊎ ((2 ^ 31 < v) × (v < 2 ^ 32)) → round_up_next_power_of_2 v ≡ 0
unfolding round_up_next_power_of_2
round_up_overflow v (inl e) = rw e refl
round_up_overflow v (inr (lo, hi)) =
    round_up_of_top v 31 (omega arith) hi (omega arith) (omega arith) (omega arith)
