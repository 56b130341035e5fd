-- ===== src/Prelude/Bits.antt =====
-- `&` and `|` of the native numbers: one binary digit at a time, then the masks that C code uses.
use Prim.Native.Nat.{ℕ, zero, suc, ◌+◌, ◌-◌, ◌*◌, ◌/◌, ◌%◌, ◌^◌, ◌≤◌, ◌<◌, min, max}
use Prim.Native.Nat.{bit_and, bit_or, digits, bitwise, bit_and-bitwise, bit_or-bitwise}
use mathlib.Core.Path.{◌≡◌, refl, sym, ◌∙◌, ap}
use native.Mathlib.Nat.{
  pow-suc, one-le-pow, div-div-eq-div-mul, mod-lt, div-add-mod, mul-add-mod_self_right,
  mod-eq_of_lt, zero-add, suc-add,
}
use native.Mathlib.Decide.{ℕ_discrete}
use native.Mathlib.Omega.{arith}

-- An operation on binary digits: `f` on the digits of both numbers, `z` where the first has none.
module _ (z : ℕ → ℕ) (f : ℕ → ℕ → ℕ) where
  more_fuel : (n a b : ℕ) → a ≤ n → digits z f (suc n) a b ≡ digits z f n a b
  more_fuel zero zero b h = refl
  more_fuel (suc n) zero b h = refl
  more_fuel zero (suc a) b h = absurd (omega arith)
  more_fuel (suc n) (suc a) b h =
      ap (λ t. t * 2 + f (suc a % 2) (b % 2)) (more_fuel n (suc a / 2) (b / 2) (omega arith))

  enough_fuel : (n a b : ℕ) → a ≤ n → digits z f n a b ≡ bitwise z f a b
  enough_fuel zero a b h = ap (λ t. digits z f t a b) {x = 0} {y = a} (omega arith)
  enough_fuel (suc n) a b h = elim (ℕ_discrete a (suc n)) [
    | yes e ↦ ap (λ t. digits z f t a b) (sym e)
    | no d ↦ more_fuel n a b (omega arith) ∙ enough_fuel n a b (omega arith)
  ]

  -- If `z` obeys the rule for the lowest digit, so does the operation.
  lowest_digit :
      (g : ℕ → ℕ → ℕ)
      → ((a b : ℕ) → g a b ≡ bitwise z f a b)
      → ((b : ℕ) → z b ≡ z (b / 2) * 2 + f 0 (b % 2))
      → (a b : ℕ) → g a b ≡ g (a / 2) (b / 2) * 2 + f (a % 2) (b % 2)
  lowest_digit g e zs zero b = omega (arith, e 0 b, e 0 (b / 2), zs b)
  lowest_digit g e zs (suc a) b =
      omega
        (arith, e (suc a) b, e (suc a / 2) (b / 2), enough_fuel a (suc a / 2) (b / 2) (omega arith))

pub bit_or_step : (a b : ℕ) → bit_or a b ≡ bit_or (a / 2) (b / 2) * 2 + max (a % 2) (b % 2)
bit_or_step = lowest_digit (λ y. y) max bit_or bit_or-bitwise (λ b. omega arith)

pub bit_and_step : (a b : ℕ) → bit_and a b ≡ bit_and (a / 2) (b / 2) * 2 + min (a % 2) (b % 2)
bit_and_step = lowest_digit (λ y. 0) min bit_and bit_and-bitwise (λ b. omega arith)

no_bits : (bound a : ℕ) → a < bound → bit_and a 0 ≡ 0
no_bits zero a h = absurd (omega arith)
no_bits (suc bound) a h = elim (ℕ_discrete a 0) [
  | yes e ↦ ap (λ t. bit_and t 0) e
  | no d ↦ omega (arith, bit_and_step a 0, no_bits bound (a / 2) (omega arith))
]

mod_pow_suc : (k a : ℕ) → a % 2 ^ suc k ≡ a / 2 % 2 ^ k * 2 + a % 2
mod_pow_suc k a =
    let q = a / 2 / 2 ^ k in
    let r = a / 2 % 2 ^ k * 2 + a % 2 in
    let small : r < 2 ^ suc k =
      omega (arith, pow-suc 2 k, mod-lt (a / 2) {m = 2 ^ k} (one-le-pow k 2 (omega arith))) in
    let split : a ≡ q * 2 ^ suc k + r =
      omega (arith, div-add-mod (a / 2) (2 ^ k), ap (λ (t : ℕ). q * t) (pow-suc 2 k)) in
    ap (λ t. t % 2 ^ suc k) split ∙ mul-add-mod_self_right q (2 ^ suc k) r ∙ mod-eq_of_lt small

-- A mask of `k` low bits is the remainder by `2 ^ k`.
pub bit_and-low : (k a : ℕ) → bit_and a (2 ^ k - 1) ≡ a % 2 ^ k
bit_and-low zero a = omega (arith, no_bits (suc a) a (omega arith))
bit_and-low (suc k) a = omega (
  arith,
  bit_and_step a (2 ^ suc k - 1),
  pow-suc 2 k,
  one-le-pow k 2,
  bit_and-low k (a / 2),
  mod_pow_suc k a,
  half_mask,
)
  where
    half_mask : bit_and (a / 2) ((2 ^ suc k - 1) / 2) ≡ bit_and (a / 2) (2 ^ k - 1)
    half_mask = ap (bit_and (a / 2)) (omega (arith, pow-suc 2 k, one-le-pow k 2))

-- `& ~(2 ^ k - 1)` on a `w`-bit word clears the `k` low bits.
pub bit_and-high : (k w a : ℕ) → k ≤ w → a < 2 ^ w → bit_and a (2 ^ w - 2 ^ k) ≡ a - a % 2 ^ k
bit_and-high zero w a h small = omega (arith, bit_and-low w a, mod-eq_of_lt small)
bit_and-high (suc k) zero a h small = absurd (omega arith)
bit_and-high (suc k) (suc w) a h small = omega (
  arith,
  bit_and_step a (2 ^ suc w - 2 ^ suc k),
  pow-suc 2 k,
  pow-suc 2 w,
  bit_and-high k w (a / 2) (omega arith) (omega (arith, pow-suc 2 w)),
  mod_pow_suc k a,
  half_mask,
)
  where
    half_mask : bit_and (a / 2) ((2 ^ suc w - 2 ^ suc k) / 2) ≡ bit_and (a / 2) (2 ^ w - 2 ^ k)
    half_mask = ap (bit_and (a / 2)) (omega (arith, pow-suc 2 k, pow-suc 2 w))

-- Bit `i` of a number.
abbrev pub bit : ℕ → ℕ → ℕ
bit a i = a / 2 ^ i % 2

bit-suc : (a i : ℕ) → bit a (suc i) ≡ bit (a / 2) i
bit-suc a i =
    ap (λ t. a / t % 2) (omega (arith, pow-suc 2 i))
    ∙ ap (λ t. t % 2) (sym (div-div-eq-div-mul a 2 (2 ^ i)))

pow_add : (i j : ℕ) → 2 ^ (i + j) ≡ 2 ^ j * 2 ^ i
pow_add zero j = omega (arith, ap (λ (t : ℕ). 2 ^ t) (zero-add j))
pow_add (suc i) j = omega (
  arith,
  ap (λ (t : ℕ). 2 ^ t) (suc-add i j),
  pow-suc 2 (i + j),
  pow_add i j,
  ap (λ (t : ℕ). 2 ^ j * t) (pow-suc 2 i),
)

pub bit-shift : (a i j : ℕ) → bit (a / 2 ^ j) i ≡ bit a (i + j)
bit-shift a i j =
    ap (λ t. t % 2) (div-div-eq-div-mul a (2 ^ j) (2 ^ i)) ∙ ap (λ t. a / t % 2) (sym (pow_add i j))

pub bit-bit_or : (i a b : ℕ) → bit (bit_or a b) i ≡ max (bit a i) (bit b i)
bit-bit_or zero a b = omega (arith, bit_or_step a b)
bit-bit_or (suc i) a b =
    omega
      (arith, bit-suc (bit_or a b) i, bit-suc a i, bit-suc b i, bit-bit_or i (a / 2) (b / 2), half)
  where
    half : bit (bit_or a b / 2) i ≡ bit (bit_or (a / 2) (b / 2)) i
    half = ap (λ (t : ℕ). bit t i) (omega (arith, bit_or_step a b))

pub bit_or-lt : (k a b : ℕ) → a < 2 ^ k → b < 2 ^ k → bit_or a b < 2 ^ k
bit_or-lt zero a b p q =
    let ea : a ≡ 0 = omega arith in let eb : b ≡ 0 = omega arith in rw (ea, eb) (omega arith)
bit_or-lt (suc k) a b p q = omega (
  arith,
  bit_or_step a b,
  pow-suc 2 k,
  bit_or-lt k (a / 2) (b / 2) (omega (arith, pow-suc 2 k)) (omega (arith, pow-suc 2 k)),
)

-- A number all of whose bits below `n` are set is the mask of `n` bits.
pub ones_of_bits : (n a : ℕ) → a < 2 ^ n → ((i : ℕ) → i < n → bit a i ≡ 1) → a ≡ 2 ^ n - 1
ones_of_bits zero a h all = omega arith
ones_of_bits (suc n) a h all = omega (
  arith,
  pow-suc 2 n,
  all 0 (omega arith),
  ones_of_bits n (a / 2) (omega (arith, pow-suc 2 n))
      (λ i p. sym (bit-suc a i) ∙ all (suc i) (omega arith)),
)
