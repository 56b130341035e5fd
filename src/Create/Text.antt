-- ===== src/Create/Text.antt =====
-- `%d` of a number that is not negative, and its padding with zeros.
use log2mem.Prelude.{
  ℕ, zero, suc, ◌+◌, ◌-◌, ◌/◌, ◌%◌, ltb, if◌then◌else◌, List, [], ◌∷◌, ◌++◌, length, replicate,
}

-- The digits of `n` before `acc`. `n + 1` rounds are enough, since a quotient by 10 is smaller.
unfoldable pub digits_onto : ℕ → ℕ → List ℕ → List ℕ
digits_onto zero n acc = acc
digits_onto (suc fuel) n acc =
    let digit = b'0' + n % 10 in
    let rest = digits_onto fuel (n / 10) (digit ∷ acc) in if ltb n 10 then digit ∷ acc else rest

unfoldable pub decimal : ℕ → List ℕ
unfolding digits_onto
decimal n = digits_onto (n + 1) n []

unfoldable pub pad_left : ℕ → List ℕ → List ℕ
pad_left width text = replicate (width - length text) b'0' ++ text
