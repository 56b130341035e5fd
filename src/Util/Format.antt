-- ===== src/Util/Format.antt =====
-- What the tool asks of `printf` and `sscanf`, the globals that its options set, and the C library's
-- conversions that are parameters.
use log2mem.Prelude.{
  ℕ, zero, suc, ◌+◌, ◌-◌, ◌^◌, ◌==◌, ltb, if◌then◌else◌, Bool, true, false, Option, List, [], ◌∷◌,
  ◌++◌, codes,
}
use log2mem.Memory.{Mem}
use log2mem.State.{BrokenTime}
use log2mem.Create.{decimal, pad_left}
use log2mem.Util.Run.{Run, done, fault, ◌>>=◌}

-- `%f` of a `double` and of a `float`, `%lf` and `%i` of `sscanf`, which may find no number, and
-- `localtime_r`; values are bit patterns.
pub record Libc : Type 0 where
  pub show_double : ℕ → List ℕ
  pub show_float : ℕ → List ℕ
  pub scan_double : List ℕ → Option ℕ
  pub scan_int : List ℕ → Option ℕ
  pub localtime : ℕ → BrokenTime

-- `g_delim`, `g_showdelim` and `g_terse`.
pub record Globals : Type 0 where
  pub delim : List ℕ
  pub showdelim : Bool
  pub terse : Bool

-- `%i`, `%d` and `%ld` of a number of `w` bits.
unfoldable pub signed : ℕ → ℕ → List ℕ
signed w x = if ltb x (2 ^ (w - 1)) then decimal x else b'-' ∷ decimal (2 ^ w - x)

abbrev pub show_int : ℕ → List ℕ
show_int = signed 32

-- `%s` of a text at address `a`, of which `n` bytes can be read.
unfoldable pub read_text : ℕ → ℕ → Mem → Run (List ℕ)
read_text zero a m = fault
read_text (suc n) a m =
    let rest = read_text n (a + 1) m >>= λ s. done (m a ∷ s) in if m a == 0 then done [] else rest

-- `"%02d:%02d:%02d."`
unfoldable pub show_clock : BrokenTime → List ℕ
show_clock t =
    pad_left 2 (decimal t.hour)
    ++ codes ":"
    ++ pad_left 2 (decimal t.min)
    ++ codes ":"
    ++ pad_left 2 (decimal t.sec)
    ++ codes "."

-- `strcmp(x, y) == 0`, and `strncmp(x, y, strlen(x)) == 0`.
unfoldable pub text_eq : List ℕ → List ℕ → Bool
text_eq [] [] = true
text_eq [] (y ∷ ys) = false
text_eq (x ∷ xs) [] = false
text_eq (x ∷ xs) (y ∷ ys) = let rest = text_eq xs ys in if x == y then rest else false

unfoldable pub starts_with : List ℕ → List ℕ → Bool
starts_with [] ys = true
starts_with (x ∷ xs) [] = false
starts_with (x ∷ xs) (y ∷ ys) = let rest = starts_with xs ys in if x == y then rest else false
