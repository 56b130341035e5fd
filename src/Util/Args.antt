-- ===== src/Util/Args.antt =====
-- The arguments that set a variable by its index: `process_set_var_arg`, `set_var_double`,
-- `set_var_int` and `set_var_string` of util/log2memutil.c. An argument is a text without its NUL;
-- `rest` are the arguments behind it.
pub mod Index
use log2mem.Prelude.{
  ℕ, ◌+◌, ◌-◌, ◌*◌, ◌==◌, leb, if◌then◌else◌, ◌&&◌, Bool, true, false, Option, none, some, List, [],
  ◌∷◌, ◌++◌, length, drop, codes, u32,
}
use log2mem.State.{Handle, Os}
use log2mem.Var.{var_double_set, var_int_set}
use log2mem.Util.Run.{Run, done, fault}
use log2mem.Util.Format.{Libc}
use log2mem.Util.Tool.{T, ◌>>=◌, ◌>>◌, pure, die, call}

abbrev pub opt_double : List ℕ
opt_double = codes "--double"

abbrev pub opt_string : List ℕ
opt_string = codes "--string"

abbrev pub opt_int : List ℕ
opt_int = codes "--int"

-- `if (*ptr == c) ptr++`
unfoldable pub skip_char : ℕ → List ℕ → List ℕ
skip_char c [] = []
skip_char c (x ∷ xs) = if x == c then xs else x ∷ xs

-- The loop over the digits: the index, with `unsigned int` arithmetic, and the pointer behind them.
unfoldable pub scan_index : List ℕ → ℕ → ℕ × List ℕ
scan_index [] idx = (idx, [])
scan_index (x ∷ xs) idx =
    let rest = scan_index xs (u32 (10 * idx + (x - b'0'))) in
    if leb b'0' x && leb x b'9' then rest else (idx, x ∷ xs)

-- `idx`, `value` and the arguments that are left.
pub record SetArg : Type 0 where
  pub idx : ℕ
  pub value : List ℕ
  pub rest : List (List ℕ)

-- What stands behind the index: the value, or nothing and the value is the next argument.
unfoldable pub value_arg : ℕ → List ℕ → List ℕ → List (List ℕ) → T SetArg
value_arg idx firstarg [] [] = die (codes "missing argument to ") firstarg
value_arg idx firstarg [] (next ∷ rest) = pure (record { idx = idx; value = next; rest = rest })
value_arg idx firstarg (x ∷ xs) rest =
    if x == b'='
    then pure (record { idx = idx; value = xs; rest = rest })
    else die (codes "expected numeric digits, ") firstarg

unfoldable pub process_set_var_arg : List ℕ → List (List ℕ) → List ℕ → T SetArg
process_set_var_arg firstarg rest optionprefix =
    let (idx, ptr) = scan_index (skip_char b'[' (drop (length optionprefix) firstarg)) 0 in
    value_arg idx firstarg (skip_char b']' ptr) rest

-- What `sscanf` has stored; a value that it has not stored is indeterminate.
unfoldable pub scanned : Option ℕ → T ℕ
scanned none t = fault
scanned (some v) t = done (v, t)

unfoldable pub set_var_string : Option Handle → List ℕ → List (List ℕ) → T (List (List ℕ))
set_var_string handle firstarg rest =
    process_set_var_arg firstarg rest opt_string >>= λ a. pure a.rest

unfoldable pub set_var_double :
    Libc → Os → Option Handle → List ℕ → List (List ℕ) → T (List (List ℕ))
set_var_double lc os handle firstarg rest = process_set_var_arg firstarg rest opt_double >>= λ a.
    elim handle [
      | none ↦ pure a.rest
      | some h ↦ scanned (lc.scan_double a.value) >>= λ val.
          call (var_double_set os a.idx val) >> pure a.rest
    ]

unfoldable pub set_var_int : Libc → Os → Option Handle → List ℕ → List (List ℕ) → T (List (List ℕ))
set_var_int lc os handle firstarg rest = process_set_var_arg firstarg rest opt_int >>= λ a.
    elim handle [
      | none ↦ pure a.rest
      | some h ↦
          scanned (lc.scan_int a.value) >>= λ val. call (var_int_set os a.idx val) >> pure a.rest
    ]
