-- ===== src/Var/Cell.antt =====
-- A variable as a stage, a value and a label, and what the operations do to it.
use log2mem.Prelude.{
  ℕ, ◌+◌, ◌*◌, ◌%◌, ◌^◌, ◌≤◌, ◌<◌, ◌≡◌, ◌==◌, if◌then◌else◌, Option, none, some, List, arith,
}
use log2mem.Memory.{Mem, load, read_bytes}
use log2mem.Config.{Config}
use log2mem.State.{Handle}
use log2mem.Ready.{HasConfig, IsMapped}
use log2mem.Element.{text_bytes}
use log2mem.Var.{Kind, double_var, int_var, base, size, value_size, flags, text}

-- Nobody has set the variable, it was set only, or `…_init` has run.
pub data Stage : Type 0 where
  untouched : Stage
  set_only : Stage
  initialised : Stage

-- The flags of a stage.
abbrev pub bits : Stage → ℕ
bits untouched = 0
bits set_only = 2
bits initialised = 3

pub record Var : Type 0 where
  pub stage : Stage
  pub value : ℕ
  pub label : List ℕ

abbrev pub after_set : Stage → Stage
after_set untouched = set_only
after_set set_only = set_only
after_set initialised = initialised

abbrev pub set : ℕ → Var → Var
set v x = record { stage = after_set x.stage; value = v; label = x.label }

abbrev pub label_after : Option (List ℕ) → List ℕ → List ℕ
label_after none old = old
label_after (some src) old = text_bytes 63 src

abbrev pub initialise : ℕ → Option (List ℕ) → Var → Var
initialise v src x = elim x.stage [
  | initialised ↦ x
  | untouched ↦ record { stage = initialised; value = v; label = label_after src x.label }
  | set_only ↦ record { stage = initialised; value = v; label = label_after src x.label }
]

abbrev pub Vars : Type 0
Vars = ℕ → Var

-- The variable at index `i` is changed by `f`, and no other.
unfoldable pub update : ℕ → (Var → Var) → Vars → Vars
update i f vs j = if i == j then f (vs i) else vs j

abbrev pub var_index : Config → ℕ → ℕ
var_index c id = id % c.num_vars

abbrev pub cell : Kind → Handle → ℕ → ℕ
cell k h i = base k h + i * size k

-- The map holds this variable at address `a`; its label ends with a NUL.
pub record IsVar (k : Kind) (a : ℕ) (m : Mem) (x : Var) : Type 0 where
  pub value : load (value_size k) a m ≡ x.value
  pub stage : load 4 (a + flags k) m ≡ bits x.stage
  pub label : read_bytes 63 (a + text k) m ≡ x.label
  pub terminated : m (a + text k + 63) ≡ 0

pub record HasVars (k : Kind) (c : Config) (h : Handle) (m : Mem) (vs : Vars) : Type 0 where
  pub config : HasConfig c m
  pub vars : (i : ℕ) → i < c.num_vars → IsVar k (cell k h i) m (vs i)

-- The members follow one another in the structure.
pub members :
    (k : Kind)
    → (0 < size k) × (value_size k ≤ flags k) × (flags k + 4 ≤ text k) × (text k + 64 ≤ size k)
unfolding size value_size flags text
members double_var = omega arith
members int_var = omega arith

pub array_bounds :
    (k : Kind) {c : Config} {h : Handle}
    → IsMapped c h
    → (256 ≤ base k h) × (base k h + c.num_vars * size k < 2 ^ 31)
unfolding base size
array_bounds double_var v =
    omega (arith, v.counters_at, v.rows_at, v.labels_after, v.doubles_at, v.ints_at, v.ints_end)
array_bounds int_var v =
    omega (arith, v.counters_at, v.rows_at, v.labels_after, v.doubles_at, v.ints_at, v.ints_end)
