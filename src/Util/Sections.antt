-- ===== src/Util/Sections.antt =====
-- `print_counters` and `print_vars` of util/log2memutil.c.
pub mod Show
use log2mem.Prelude.{
  ℕ, zero, suc, ◌+◌, ◌-◌, ◌^◌, ◌==◌, ltb, bit_and, if◌then◌else◌, Option, none, some, List, [], ◌∷◌,
  ◌++◌, codes,
}
use log2mem.Memory.{Mem, load}
use log2mem.Abi.{sizeof_counter, sizeof_label}
use log2mem.Element.{label_len}
use log2mem.State.{Handle}
use log2mem.Create.{decimal}
use log2mem.Var.{Kind, double_var, int_var, base, size, value_size, flags, text, log2mem_e_used}
use log2mem.Util.Run.{Run, done, fault, ◌>>=◌}
use log2mem.Util.Format.{Libc, show_int, read_text}

-- What `strncpy` of at most `n` bytes leaves of the text at `a` in a buffer of zeros.
unfoldable pub read_label : ℕ → ℕ → Mem → List ℕ
read_label zero a m = []
read_label (suc n) a m = let rest = read_label n (a + 1) m in if m a == 0 then [] else m a ∷ rest

-- `"counter[%d] %s : %d\n"`
unfoldable pub counter_text : ℕ → List ℕ → ℕ → List ℕ
counter_text i label value =
    codes "counter["
    ++ show_int i
    ++ codes "] "
    ++ label
    ++ codes " : "
    ++ show_int value
    ++ codes "\n"

-- `count` counters from index `i` on; `c` and `l` are the pointers to the counter and its label.
unfoldable pub show_counters : ℕ → ℕ → ℕ → ℕ → ℕ → Mem → Run (List ℕ)
show_counters size zero i c l m = done []
show_counters size (suc count) i c l m =
    let rest = show_counters size count (i + 1) (c + sizeof_counter) (l + sizeof_label) m in
    let line = counter_text i (read_label label_len l m) (load 4 c m) in
    let shown = if ltb size (l + label_len) then fault else rest >>= λ more. done (line ++ more) in
    let counter = if load 4 (c + 4) m == 0 then rest else shown in
    if ltb size (c + sizeof_counter) then fault else counter

-- The number of counters is an `int` here.
unfoldable pub print_counters : ℕ → Option Handle → Mem → Run (List ℕ)
print_counters size none m = done []
print_counters size (some h) m =
    let num_counters = load 4 36 m in
    let lines = show_counters size num_counters 0 h.counters h.counter_labels m in
    if ltb num_counters (2 ^ 31) then lines else done []

-- `%f` of a `double` and `%i` of an `int`.
unfoldable pub show_value : Libc → Kind → ℕ → List ℕ
show_value lc double_var v = lc.show_double v
show_value lc int_var v = show_int v

unfoldable pub kind_name : Kind → List ℕ
kind_name double_var = codes "double"
kind_name int_var = codes "int"

-- `"double[%d] %s%s: %f\n"` and `"int[%d] %s%s: %i\n"`; the second `%s` is a space behind a label
-- that is not empty.
unfoldable pub var_text : Libc → Kind → ℕ → List ℕ → ℕ → List ℕ
var_text lc k i label value =
    kind_name k
    ++ codes "["
    ++ show_int i
    ++ codes "] "
    ++ label
    ++ (elim label [ [] ↦ [] | x ∷ xs ↦ codes " " ])
    ++ codes ": "
    ++ show_value lc k value
    ++ codes "\n"

-- The loop over one of the two arrays: `count` variables from index `i` on, at `a`.
unfoldable pub show_vars : Libc → ℕ → Kind → ℕ → ℕ → ℕ → Mem → Run (List ℕ)
show_vars lc end k zero i a m = done []
show_vars lc end k (suc count) i a m =
    let rest = show_vars lc end k count (i + 1) (a + size k) m in
    let shown =
      (read_text (end - (a + text k)) (a + text k) m >>= λ label.
      rest >>= λ more. done (var_text lc k i label (load (value_size k) a m) ++ more)) in
    let variable = if bit_and (load 4 (a + flags k) m) log2mem_e_used == 0 then rest else shown in
    if ltb end (a + size k) then fault else variable

unfoldable pub print_vars : Libc → ℕ → Option Handle → Mem → Run (List ℕ)
print_vars lc end none m = done []
print_vars lc end (some h) m =
    show_vars lc end double_var (load 4 48 m) 0 (base double_var h) m >>= λ doubles.
    show_vars lc end int_var (load 4 48 m) 0 (base int_var h) m >>= λ ints. done (doubles ++ ints)
