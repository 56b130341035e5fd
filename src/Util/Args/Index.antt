-- ===== src/Util/Args/Index.antt =====
-- The index in an argument is read back, with or without brackets, and with the value behind `=` or
-- in the next argument.
use log2mem.Prelude.{
  ℕ, zero, suc, ◌+◌, ◌*◌, ◌/◌, ◌%◌, ◌^◌, ◌<◌, ◌≡◌, refl, ◌∙◌, sym, ap, arith, leb_of_le, ltb_of_lt,
  ltb_of_le, ==_of_ne, Bool, true, false, List, [], ◌∷◌, ◌++◌, length, drop, u32,
}
use native.Mathlib.Decide.{dec_lt}
use log2mem.Create.Text.{decimal}
use log2mem.Create.Text.{digits_onto}
use log2mem.Util.Run.{done}
use log2mem.Util.Tool.{Tool}
use log2mem.Util.Args.{skip_char, scan_index, value_arg, process_set_var_arg}

digit_step :
    (d idx : ℕ) (acc : List ℕ)
    → d < 10
    → scan_index ((b'0' + d) ∷ acc) idx ≡ scan_index acc (u32 (10 * idx + d))
unfolding scan_index
digit_step d idx acc lt =
    rw (leb_of_le 48 (48 + d) (omega arith), leb_of_le (48 + d) 57 (omega arith))
      (ap (λ (t : ℕ). scan_index acc (u32 (10 * idx + t))) (omega arith))

-- The digits of a number are read back to it.
scan_digits :
    (fuel n : ℕ) (acc : List ℕ)
    → n < fuel
    → n < 2 ^ 32
    → scan_index (digits_onto fuel n acc) 0 ≡ scan_index acc n
unfolding digits_onto
scan_digits zero n acc p q = absurd (omega arith)
scan_digits (suc fuel) n acc p q = elim (dec_lt n 10) [
  | yes lt ↦
      rw (ltb_of_lt n 10 lt)
        (digit_step (n % 10) 0 acc (omega arith) ∙ ap (scan_index acc) (omega arith))
  | no ge ↦ rw (ltb_of_le n 10 (omega arith)) (
      scan_digits fuel (n / 10) ((b'0' + n % 10) ∷ acc) (omega arith) (omega arith)
      ∙ digit_step (n % 10) (n / 10) acc (omega arith)
      ∙ ap (scan_index acc) (omega arith))
]

digits-append :
    (fuel n : ℕ) (acc tail : List ℕ)
    → digits_onto fuel n acc ++ tail ≡ digits_onto fuel n (acc ++ tail)
unfolding digits_onto
digits-append zero n acc tail = refl
digits-append (suc fuel) n acc tail = elim (dec_lt n 10) [
  | yes lt ↦ rw (ltb_of_lt n 10 lt) refl
  | no ge ↦
      rw (ltb_of_le n 10 (omega arith)) (digits-append fuel (n / 10) ((b'0' + n % 10) ∷ acc) tail)
]

-- A number does not start with a bracket.
skip_no_bracket :
    (fuel n : ℕ) (acc : List ℕ)
    → n < fuel
    → skip_char b'[' (digits_onto fuel n acc) ≡ digits_onto fuel n acc
unfolding digits_onto skip_char
skip_no_bracket zero n acc p = absurd (omega arith)
skip_no_bracket (suc fuel) n acc p = elim (dec_lt n 10) [
  | yes lt ↦ rw (ltb_of_lt n 10 lt, ==_of_ne (48 + n % 10) 91 (λ e. omega arith)) refl
  | no ge ↦
      rw (ltb_of_le n 10 (omega arith))
        (skip_no_bracket fuel (n / 10) ((b'0' + n % 10) ∷ acc) (omega arith))
]

-- The index as it is written behind the option's name.
pub data Form : Type 0 where
  bracketed : Form
  bare : Form

unfoldable pub index_then : Form → ℕ → List ℕ → List ℕ
index_then bracketed i tail = b'[' ∷ (decimal i ++ b']' ∷ tail)
index_then bare i tail = decimal i ++ tail

scan_decimal :
    (i : ℕ) (tail : List ℕ) → i < 2 ^ 32 → scan_index (decimal i ++ tail) 0 ≡ scan_index tail i
unfolding decimal
scan_decimal i tail p =
    ap (λ (t : List ℕ). scan_index t 0) (digits-append (i + 1) i [] tail)
    ∙ scan_digits (i + 1) i tail (omega arith) p

skip_decimal : (i : ℕ) (tail : List ℕ) → skip_char b'[' (decimal i ++ tail) ≡ decimal i ++ tail
unfolding decimal
skip_decimal i tail =
    ap (skip_char b'[') (digits-append (i + 1) i [] tail)
    ∙ skip_no_bracket (i + 1) i tail (omega arith)
    ∙ sym (digits-append (i + 1) i [] tail)

drop-append : (xs ys : List ℕ) → drop (length xs) (xs ++ ys) ≡ ys
drop-append [] ys = refl
drop-append (x ∷ xs) ys = drop-append xs ys

-- Both ways of writing the value.
unfoldable pub value_then : Bool → List ℕ → List ℕ
value_then true v = b'=' ∷ v
value_then false v = []

unfoldable pub value_rest : Bool → List ℕ → List (List ℕ) → List (List ℕ)
value_rest true v rest = rest
value_rest false v rest = v ∷ rest

-- `process_set_var_arg` reads back the index below 2 ^ 32 that is written behind the option's name, in
-- brackets or not, and the value, which stands behind `=` or is the next argument.
pub process_set_var_arg-index_then :
    (form : Form) (inline : Bool) (optionprefix : List ℕ) (i : ℕ) (v : List ℕ)
    (rest : List (List ℕ)) (t : Tool)
    → i < 2 ^ 32
    → process_set_var_arg
        (optionprefix ++ index_then form i (value_then inline v))
        (value_rest inline v rest)
        optionprefix
        t
      ≡ done (record { idx = i; value = v; rest = rest }, t)
unfolding process_set_var_arg value_arg index_then value_then value_rest skip_char scan_index
process_set_var_arg-index_then bracketed true optionprefix i v rest t p =
    rw
      (
        drop-append optionprefix (b'[' ∷ (decimal i ++ b']' ∷ b'=' ∷ v)),
        scan_decimal i (b']' ∷ b'=' ∷ v) p,
      )
      refl
process_set_var_arg-index_then bracketed false optionprefix i v rest t p =
    rw (drop-append optionprefix (b'[' ∷ (decimal i ++ b']' ∷ [])), scan_decimal i (b']' ∷ []) p)
      refl
process_set_var_arg-index_then bare true optionprefix i v rest t p =
    rw
      (
        drop-append optionprefix (decimal i ++ b'=' ∷ v),
        skip_decimal i (b'=' ∷ v),
        scan_decimal i (b'=' ∷ v) p,
      )
      refl
process_set_var_arg-index_then bare false optionprefix i v rest t p =
    rw (drop-append optionprefix (decimal i ++ []), skip_decimal i [], scan_decimal i [] p) refl
