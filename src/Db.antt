-- ===== src/Db.antt =====
-- The library as a whole, liblog2mem/log2mem/log2mem.h: what a map holds, as a log of rows, a bank of
-- counters and two arrays of variables, and what each call does to it.
pub mod Step
pub mod Run
use log2mem.Prelude.{ℕ, ◌+◌, ◌^◌, ◌<◌, Option, some, List, [], ◌∷◌, length}
use log2mem.Config.{Config}
use log2mem.State.{Handle, State, Os, M, returned, pure, ◌>>=◌, ◌>>◌}
use log2mem.Ready.{IsReady, IsPowerOfTwo}
use log2mem.Row.Item.{Item}
use log2mem.Row.Slot.{slot, slot_of}
use log2mem.Row.Stamp.{place_items}
use log2mem.Row.Log.{write, append_str}
use log2mem.Row.Event.{time_event4}
use log2mem.Row.Event.Items.{event_text, event_items, IsText}
use log2mem.Ring.{Log, Represents, new_entry, append_entry}
use log2mem.Ring.Append.{Scalar, append_scalar, scalar_item, string_item}
use log2mem.Ring.Event.{all_or_none}
use log2mem.Ring.Run.{Call, IsCall}
use log2mem.Counter.{counter_add, counter_label}
use log2mem.Counter.Bank.{Bank, HasBank, bank_add, bank_label}
use log2mem.Var.{Kind, double_var, int_var, value_size, var_set, var_init}
use log2mem.Var.Cell.{Vars, HasVars, var_index, update, set, initialise}

pub record Db : Type 0 where
  pub log : Log
  pub bank : Bank
  pub vars : Kind → Vars

-- A ready process whose map holds all of this.
pub record Models (c : Config) (h : Handle) (s : State) (db : Db) : Type 0 where
  pub ready : IsReady c h s
  pub log : Represents c h s.mem db.log
  pub word : db.log.next < 2 ^ 32
  pub bank : HasBank c h s.mem db.bank
  pub vars : (k : Kind) → HasVars k c h s.mem (db.vars k)

-- Calls that log, count and set, one of each kind, with what the system answers during them. Appends
-- are given the slot of their row. `log2mem_get_row`, `log2mem_append_str2` and `log2mem_set_ts`, which
-- change the map as well, are not among them.
pub data Op : Type 0 where
  write_row : Call → Op
  log_event : Os → ℕ → ℕ → Option (List ℕ) → ℕ → Op
  append_value_to : ℕ → Scalar → ℕ → Op
  append_text_to : ℕ → List ℕ → Op
  add_counter : Os → ℕ → ℕ → Op
  label_counter : Os → ℕ → List ℕ → Op
  set_variable : Kind → Os → ℕ → ℕ → Op
  init_variable : Kind → Os → ℕ → ℕ → Option (List ℕ) → Op

-- The call of the library.
unfoldable pub call_op : Config → Handle → Op → M (Unit {0})
call_op c h (write_row call) =
    write call.os (some call.text) call.filename call.lineno >>= λ row. pure tt
call_op c h (log_event os flowid msgref str len) =
    time_event4 os flowid msgref str len >>= λ row. pure tt
call_op c h (append_value_to i t d) = append_scalar t (some (slot c h i)) d
call_op c h (append_text_to i text) = append_str (some (slot c h i)) (some text)
call_op c h (add_counter os id v) = counter_add os id v
call_op c h (label_counter os id src) = counter_label os id src
call_op c h (set_variable k os id v) = var_set k os id v
call_op c h (init_variable k os id v src) = var_init k os id v src

-- What it does to the contents.
abbrev pub with_log : Log → Db → Db
with_log l db = record { log = l; bank = db.bank; vars = db.vars }

abbrev pub with_bank : Bank → Db → Db
with_bank b db = record { log = db.log; bank = b; vars = db.vars }

abbrev pub with_kind : Kind → (Vars → Vars) → (Kind → Vars) → Kind → Vars
with_kind double_var f vs double_var = f (vs double_var)
with_kind double_var f vs int_var = vs int_var
with_kind int_var f vs double_var = vs double_var
with_kind int_var f vs int_var = f (vs int_var)

abbrev pub with_vars : Kind → (Vars → Vars) → Db → Db
with_vars k f db = record { log = db.log; bank = db.bank; vars = with_kind k f db.vars }

abbrev pub apply : Config → Op → Db → Db
apply c (write_row call) db =
    with_log
      (append_entry c (slot_of c db.log.next) (string_item call.text)
        (new_entry c (place_items c call.filename call.lineno) db.log))
      db
apply c (log_event os flowid msgref str len) db =
    with_log
      (new_entry c (all_or_none c (event_items flowid msgref (event_text str len) len)) db.log) db
apply c (append_value_to i t d) db = with_log (append_entry c i (scalar_item t d) db.log) db
apply c (append_text_to i text) db = with_log (append_entry c i (string_item text) db.log) db
apply c (add_counter os id v) db = with_bank (bank_add c id v db.bank) db
apply c (label_counter os id src) db = with_bank (bank_label c id src db.bank) db
apply c (set_variable k os id v) db = with_vars k (update (var_index c id) (set v)) db
apply c (init_variable k os id v src) db =
    with_vars k (update (var_index c id) (initialise v src)) db

-- The texts fit a row's size, rows are in range, and values fit their type.
abbrev pub IsOp : Config → Op → Type 0
IsOp c (write_row call) = IsCall call
IsOp c (log_event os flowid msgref str len) = IsText (event_text str len) len
IsOp c (append_value_to i t d) = i < c.num_rows
IsOp c (append_text_to i text) = (i < c.num_rows) × (length text + 9 < 2 ^ 31)
IsOp c (add_counter os id v) = Unit
IsOp c (label_counter os id src) = Unit
IsOp c (set_variable k os id v) = v < 256 ^ value_size k
IsOp c (init_variable k os id v src) = v < 256 ^ value_size k

-- Calls one after another.
unfoldable pub call_ops : Config → Handle → List Op → M (Unit {0})
call_ops c h [] s = returned tt s
call_ops c h (op ∷ ops) s = (call_op c h op >> call_ops c h ops) s

abbrev pub apply_all : Config → List Op → Db → Db
apply_all c [] db = db
apply_all c (op ∷ ops) db = apply_all c ops (apply c op db)

abbrev pub AreOps : Config → List Op → Type 0
AreOps c [] = Unit
AreOps c (op ∷ ops) = IsOp c op × AreOps c ops
