-- ===== src/Util/Sections/Show.antt =====
-- The tool shows the counters that are marked as used and the variables that were set, in the order
-- of their indices.
use log2mem.Prelude.{ℕ, zero, suc, ◌+◌, ◌-◌, ◌*◌, ◌^◌, ◌≤◌, ◌≡◌, refl, ◌∙◌, ap, inl, inr, arith}
use log2mem.Prelude.{
  ◌==◌, ltb_of_le, ltb_of_lt, bit_and, if◌then◌else◌, some, List, [], ◌∷◌, ◌++◌, length,
  length-append, Bool-cases,
}
use log2mem.Memory.{Mem, load, read_bytes}
use log2mem.Memory.Frame.{length-read_bytes}
use log2mem.Config.{Config}
use log2mem.State.{Handle}
use log2mem.Ready.{IsMapped}
use log2mem.Ready.Index.{num_counters_at, num_vars_at}
use log2mem.Row.{c_string}
use log2mem.Counter.Bank.{Bank, HasBank, IsCell, counter_cell, label_cell}
use log2mem.Var.{Kind, double_var, int_var, base, size, value_size, text, log2mem_e_used}
use log2mem.Var.Cell.{
  Vars, Var, Stage, untouched, set_only, initialised, HasVars, IsVar, cell, bits, members,
}
use log2mem.Element.Index.{cells-le}
use log2mem.Util.Run.{Run, done, ◌>>=◌}
use log2mem.Util.Format.{Libc, read_text}
use log2mem.Util.Item.Show.{up_to_nul, c_string-HasNul, read_text_lem}
use log2mem.Util.Sections.{
  read_label, counter_text, show_counters, print_counters, var_text, show_vars, print_vars,
  show_value, kind_name,
}
use log2mem.Util.Shown.{shown_counter, shown_variable}

read_bytes_snoc : (n a : ℕ) (m : Mem) → read_bytes (suc n) a m ≡ read_bytes n a m ++ m (a + n) ∷ []
unfolding read_bytes
read_bytes_snoc zero a m = ap (λ (t : ℕ). m t ∷ []) (omega arith)
read_bytes_snoc (suc n) a m =
    ap (λ (t : List ℕ). m a ∷ t)
      (read_bytes_snoc n (a + 1) m
        ∙ ap (λ (t : ℕ). read_bytes n (a + 1) m ++ m t ∷ []) (omega arith))

pub up_to_nul-c_string : (text : List ℕ) → up_to_nul (c_string text) ≡ up_to_nul text
unfolding up_to_nul
up_to_nul-c_string [] = refl
up_to_nul-c_string (b ∷ text) = rw (up_to_nul-c_string text) refl

read_label_lem : (n a : ℕ) (m : Mem) → read_label n a m ≡ up_to_nul (read_bytes n a m)
unfolding read_label up_to_nul read_bytes
read_label_lem zero a m = refl
read_label_lem (suc n) a m = rw (read_label_lem n (a + 1) m) refl

-- The bytes of a text of 63 and its NUL.
pub text_at :
    (a : ℕ) (label : List ℕ) (m : Mem)
    → read_bytes 63 a m ≡ label
    → m (a + 63) ≡ 0
    → read_bytes 64 a m ≡ c_string label
text_at a label m e z = read_bytes_snoc 63 a m ∙ rw (e, z) refl

counter_text_lem :
    (i : ℕ) (label : List ℕ) (value : ℕ) → counter_text i label value ≡ shown_counter i label value
unfolding counter_text
counter_text_lem i label value = refl

var_text_lem :
    (lc : Libc) (k : Kind) (i : ℕ) (label : List ℕ) (value : ℕ)
    → var_text lc k i label value ≡ shown_variable lc k i label value
unfolding var_text show_value kind_name
var_text_lem lc double_var i [] value = refl
var_text_lem lc double_var i (x ∷ label) value = refl
var_text_lem lc int_var i [] value = refl
var_text_lem lc int_var i (x ∷ label) value = refl

-- The lines of `count` counters from index `i` on: one for each that is marked as used.
unfoldable pub counter_lines : Bank → ℕ → ℕ → List ℕ
counter_lines b zero i = []
counter_lines b (suc count) i =
    (if (b i).used == 0 then [] else shown_counter i (up_to_nul (b i).label) (b i).value)
    ++ counter_lines b count (i + 1)

module _ {c : Config} {h : Handle} {m : Mem} (u : IsMapped c h) (size : ℕ)
    (inside : h.double_vars ≤ size) where
  counters_shown :
      {b : Bank} (v : HasBank c h m b) (count i x y : ℕ)
      → i + count ≡ c.num_counters
      → x ≡ counter_cell h i
      → y ≡ label_cell h i
      → show_counters size count i x y m ≡ done (counter_lines b count i)
  unfolding show_counters counter_lines
  counters_shown v zero i x y e at_x at_y = refl
  counters_shown {b} v (suc count) i x y e at_x at_y =
      let here : IsCell h m i (b i) = v.cells i (omega arith) in
      let rest =
        counters_shown v count (i + 1) (counter_cell h i + 8) (label_cell h i + 64) (omega arith)
          (omega arith) (omega arith) in
      let room = cells-le i c.num_counters 8 (omega arith) in
      let label_room = cells-le i c.num_counters 64 (omega arith) in
      rw
        (
          at_x,
          at_y,
          rest,
          ltb_of_le size (counter_cell h i + 8)
              (omega (arith, room, u.counters_at, u.rows_at, u.labels_after, u.doubles_at)),
          here.used,
        )
        (elim (Bool-cases ((b i).used == 0)) [
          | inl p ↦ rw p refl
          | inr p ↦
              rw
                (
                  p,
                  ltb_of_le size (label_cell h i + 64) (omega (arith, label_room, u.doubles_at)),
                  read_label_lem 64 (label_cell h i) m,
                  text_at (label_cell h i) (b i).label m here.label here.terminated,
                  up_to_nul-c_string (b i).label,
                  here.value,
                  counter_text_lem i (up_to_nul (b i).label) (b i).value,
                )
                refl
        ])

  -- `print_counters` shows exactly the counters that are marked as used, in the order of their
  -- indices, each with its index, its label and its value.
  pub print_counters-eq-counter_lines :
      {b : Bank} (v : HasBank c h m b)
      → print_counters size (some h) m ≡ done (counter_lines b c.num_counters 0)
  unfolding print_counters
  print_counters-eq-counter_lines v =
      rw
        (
          num_counters_at v.config,
          ltb_of_lt c.num_counters (2 ^ 31) (omega (arith, u.doubles_at, u.ints_at, u.ints_end)),
        )
        (counters_shown v c.num_counters 0 h.counters h.counter_labels (omega arith) (omega arith)
          (omega arith))

-- The lines of `count` variables from index `i` on: one for each that was set.
unfoldable pub var_lines : Libc → Kind → Vars → ℕ → ℕ → List ℕ
var_lines lc k vs zero i = []
var_lines lc k vs (suc count) i =
    (elim (vs i).stage [
      | untouched ↦ []
      | set_only ↦ shown_variable lc k i (up_to_nul (vs i).label) (vs i).value
      | initialised ↦ shown_variable lc k i (up_to_nul (vs i).label) (vs i).value
    ])
    ++ var_lines lc k vs count (i + 1)

pub array_room :
    (k : Kind) {c : Config} {h : Handle} {end : ℕ}
    → IsMapped c h
    → h.int_vars + c.num_vars * 72 ≤ end
    → base k h + c.num_vars * size k ≤ end
unfolding base size
array_room double_var u inside = omega (arith, u.ints_at)
array_room int_var u inside = omega arith

pub next_cell : (a i w : ℕ) → a + i * w + w ≡ a + (i + 1) * w
next_cell a i w = grind arith

-- The label of a variable and its NUL are 64 bytes.
pub label-length :
    (k : Kind) (a : ℕ) (m : Mem) (x : Var) → IsVar k a m x → length (c_string x.label) ≡ 64
label-length k a m x here = omega (
  arith,
  length-append x.label (0 ∷ []),
  ap length here.label,
  length-read_bytes 63 (a + text k) m,
)

pub label-bytes :
    (k : Kind) (a : ℕ) (m : Mem) (x : Var)
    → IsVar k a m x
    → read_bytes (length (c_string x.label)) (a + text k) m ≡ c_string x.label
label-bytes k a m x here =
    ap (λ (t : ℕ). read_bytes t (a + text k) m) (label-length k a m x here)
    ∙ text_at (a + text k) x.label m here.label here.terminated

-- A variable that was set has its line.
by_stage :
    {shown : Run (List ℕ)} (line more : List ℕ)
    → shown ≡ done (line ++ more)
    → (stage : Stage)
    → (if bit_and (bits stage) log2mem_e_used == 0 then done more else shown)
      ≡ done ((elim stage [ untouched ↦ [] | set_only ↦ line | initialised ↦ line ]) ++ more)
by_stage line more e untouched = refl
by_stage line more e set_only = e
by_stage line more e initialised = e

module _ {c : Config} {h : Handle} {m : Mem} (u : IsMapped c h) (lc : Libc) (end : ℕ)
    (inside : h.int_vars + c.num_vars * 72 ≤ end) where
  set_shown :
      (k : Kind) (i : ℕ) (more : List ℕ) (x : Var)
      → IsVar k (cell k h i) m x
      → cell k h i + size k ≤ end
      → (read_text (end - (cell k h i + text k)) (cell k h i + text k) m >>= λ label.
          done (var_text lc k i label (load (value_size k) (cell k h i) m) ++ more))
        ≡ done (shown_variable lc k i (up_to_nul x.label) x.value ++ more)
  set_shown k i more x here room =
      rw
        (
          read_text_lem (end - (cell k h i + text k)) (cell k h i + text k) (c_string x.label) m
              (label-bytes k (cell k h i) m x here) (c_string-HasNul x.label)
              (omega (arith, members k, room, label-length k (cell k h i) m x here)),
          up_to_nul-c_string x.label,
          here.value,
          var_text_lem lc k i (up_to_nul x.label) x.value,
        )
        refl

  vars_shown :
      (k : Kind) {vs : Vars} (v : HasVars k c h m vs) (count i a : ℕ)
      → i + count ≡ c.num_vars
      → a ≡ cell k h i
      → show_vars lc end k count i a m ≡ done (var_lines lc k vs count i)
  unfolding show_vars var_lines
  vars_shown k v zero i a e at = refl
  vars_shown k {vs} v (suc count) i a e at =
      let here : IsVar k (cell k h i) m (vs i) = v.vars i (omega arith) in
      let room = cells-le i c.num_vars (size k) (omega arith) in
      rw
        (
          at,
          vars_shown k v count (i + 1) (cell k h i + size k) (omega arith)
              (next_cell (base k h) i (size k)),
          ltb_of_le end (cell k h i + size k) (omega (arith, room, array_room k u inside)),
          here.stage,
        )
        (by_stage (shown_variable lc k i (up_to_nul (vs i).label) (vs i).value)
          (var_lines lc k vs count (i + 1))
          (set_shown k i (var_lines lc k vs count (i + 1)) (vs i) here
            (omega (arith, room, array_room k u inside)))
          (vs i).stage)

  -- `print_vars` shows exactly the variables that were set, the `double`s before the `int`s, in the
  -- order of their indices, each with its index, its label and its value.
  pub print_vars-eq-var_lines :
      {vs ws : Vars} (v : HasVars double_var c h m vs) (w : HasVars int_var c h m ws)
      → print_vars lc end (some h) m
        ≡ done (var_lines lc double_var vs c.num_vars 0 ++ var_lines lc int_var ws c.num_vars 0)
  unfolding print_vars
  print_vars-eq-var_lines v w =
      rw
        (
          num_vars_at v.config,
          vars_shown double_var v c.num_vars 0 (base double_var h) (omega arith) (omega arith),
          vars_shown int_var w c.num_vars 0 (base int_var h) (omega arith) (omega arith),
        )
        refl
