-- ===== src/Round/Smear.antt =====
-- Or-ing a word with itself shifted doubles the run of ones below its top bit.
use log2mem.Prelude.{ℕ, zero, suc, ◌+◌, ◌-◌, ◌/◌, ◌^◌, ◌≤◌, ◌<◌, ◌≡◌, arith}
use log2mem.Prelude.{bit, bit-shift, bit-bit_or, bit_or-lt, ones_of_bits}
use native.Mathlib.Nat.{pow-suc, div-le_self, div-eq_of_lt-le}
use native.Mathlib.Decide.{dec_lt}
use log2mem.Round.{smear}

-- `n` is the top bit of `v`, and the `j` bits from it downwards are set.
pub record HasOnes (j n v : ℕ) : Type 0 where
  pub below : v < 2 ^ suc n
  pub ones : (i : ℕ) → i ≤ n → n < i + j → bit v i ≡ 1

pub smear-HasOnes : (j n v : ℕ) → HasOnes j n v → HasOnes (j + j) n (smear j v)
unfolding smear
smear-HasOnes j n v h = record {
  below = bit_or-lt (suc n) v (v / 2 ^ j) h.below (omega (arith, h.below, div-le_self v (2 ^ j)));
  ones = λ i p q. elim (dec_lt n (i + j)) [
    | yes near ↦ omega (arith, bit-bit_or i v (v / 2 ^ j), h.ones i p near)
    | no far ↦ omega (
      arith,
      bit-bit_or i v (v / 2 ^ j),
      bit-shift v i j,
      h.ones (i + j) (omega arith) (omega arith),
    )
  ];
}

pub HasOnes-top : (n v : ℕ) → 2 ^ n ≤ v → v < 2 ^ suc n → HasOnes 1 n v
HasOnes-top n v lo hi = record {
  below = hi;
  ones = λ i p q.
      let e : i ≡ n = omega arith in
      let one : v / 2 ^ n ≡ 1 =
        div-eq_of_lt-le {k = 1} (2 ^ n) (omega arith) (omega (arith, pow-suc 2 n)) in
      rw (e, one);
}

-- A number that is not zero has a top bit.
pub top_bit : (w v : ℕ) → 0 < v → v < 2 ^ w → (n : ℕ) × (n < w) × (2 ^ n ≤ v) × (v < 2 ^ suc n)
top_bit zero v p h = absurd (omega arith)
top_bit (suc w) v p h = elim (dec_lt v (2 ^ w)) [
  | yes small ↦ let (n, a, b, c) = top_bit w v p small in (n, omega arith, b, c)
  | no large ↦ (w, omega arith, omega arith, h)
]

pub smear_all :
    (n v : ℕ)
    → n < 32
    → 2 ^ n ≤ v
    → v < 2 ^ suc n
    → smear 16 (smear 8 (smear 4 (smear 2 (smear 1 v)))) ≡ 2 ^ suc n - 1
smear_all n v w lo hi = ones_of_bits (suc n) _ h.below (λ i p. h.ones i (omega arith) (omega arith))
  where
    h : HasOnes 32 n (smear 16 (smear 8 (smear 4 (smear 2 (smear 1 v)))))
    h = smear-HasOnes 16 n _ (
        smear-HasOnes 8 n _
          (smear-HasOnes 4 n _ (smear-HasOnes 2 n _ (smear-HasOnes 1 n v (HasOnes-top n v lo hi)))))
