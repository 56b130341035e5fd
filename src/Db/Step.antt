-- ===== src/Db/Step.antt =====
-- Every call does to the map what `apply` does to its contents, and so does every sequence of calls.
use log2mem.Prelude.{◌∙◌, ◌^◌, ◌<◌, ◌≡◌, arith, some}
use log2mem.Memory.{Mem}
use log2mem.Config.{Config}
use log2mem.State.{Handle, State, returned, pure}
use log2mem.Ready.{IsReady, IsPowerOfTwo}
use log2mem.Ready.Prepared.{bind_returned, with_handle_set, with_element_some}
use log2mem.Memory.{load}
use log2mem.Ready.Index.{num_counters_at, num_vars_at}
use log2mem.Changes.{Changes, InRows, InCounters}
use log2mem.Changes.Keep.{
  rows_keep-bank, rows_keep-vars, counters_keep-log, counters_keep-vars, vars_keep-log,
  vars_keep-bank, vars_keep-ints, vars_keep-doubles, array_end,
}
use log2mem.Changes.Write.{add-Changes, label-Changes, set-Changes, init-Changes}
use log2mem.Changes.{InArray}
use log2mem.Row.Log.{write}
use log2mem.Row.Event.{time_event4}
use log2mem.Ring.{Log, Represents, new_entry, append_entry}
use log2mem.Ring.Append.{append_scalar-Appends, append_str-Appends}
use log2mem.Ring.Call.{write-Takes}
use log2mem.Ring.Event.{time_event4-Takes}
use log2mem.Counter.{add_to_counter, set_label, counter_add, counter_label}
use log2mem.Counter.Bank.{Bank, HasBank}
use log2mem.Counter.Refine.{add-HasBank, label-HasBank}
use log2mem.Var.{Kind, double_var, int_var, base, var_set, var_init, set_var, init_var}
use log2mem.Var.Cell.{Vars, HasVars}
use log2mem.Var.Refine.{set_var-HasVars, init_var-HasVars}
use log2mem.Db.{
  Db, Models, Op, write_row, log_event, append_value_to, append_text_to, add_counter, label_counter,
  set_variable, init_variable, call_op, with_log, with_bank, with_kind, with_vars, apply, IsOp,
}

module _ {c : Config} {h : Handle} {s : State} {db : Db} (d : Models c h s db) where
  -- A change of the rows keeps counters and variables.
  log_step :
      (s' : State) (l : Log)
      → IsReady c h s'
      → Represents c h s'.mem l
      → l.next < 2 ^ 32
      → Changes (InRows h) s.mem s'.mem
      → Models c h s' (with_log l db)
  log_step s' l r v w ch = record {
    ready = r;
    log = v;
    word = w;
    bank = rows_keep-bank d.ready.set_up ch d.bank;
    vars = λ k. rows_keep-vars d.ready.set_up k ch (d.vars k);
  }

  -- A change of the counters keeps rows and variables.
  bank_step :
      (m : Mem) (b : Bank)
      → HasBank c h m b
      → Changes (InCounters h) s.mem m
      → Models c h (record s { mem = m }) (with_bank b db)
  bank_step m b v ch = record {
    ready = record { has_handle = d.ready.has_handle; config = v.config; set_up = d.ready.set_up };
    log = counters_keep-log d.ready.set_up ch d.log;
    word = d.word;
    bank = v;
    vars = λ k. counters_keep-vars d.ready.set_up k ch (d.vars k);
  }

  kinds :
      (k : Kind) (m : Mem) (f : Vars → Vars)
      → HasVars k c h m (f (db.vars k))
      → Changes (InArray (base k h) (array_end k c h)) s.mem m
      → (k' : Kind) → HasVars k' c h m (with_kind k f db.vars k')
  kinds double_var m f v ch double_var = v
  kinds double_var m f v ch int_var = vars_keep-ints d.ready.set_up ch (d.vars int_var)
  kinds int_var m f v ch double_var = vars_keep-doubles d.ready.set_up ch (d.vars double_var)
  kinds int_var m f v ch int_var = v

  -- A change of one kind of variables keeps rows, counters and the other kind.
  vars_step :
      (k : Kind) (m : Mem) (f : Vars → Vars)
      → HasVars k c h m (f (db.vars k))
      → Changes (InArray (base k h) (array_end k c h)) s.mem m
      → Models c h (record s { mem = m }) (with_vars k f db)
  vars_step k m f v ch = record {
    ready = record { has_handle = d.ready.has_handle; config = v.config; set_up = d.ready.set_up };
    log = vars_keep-log d.ready.set_up k ch d.log;
    word = d.word;
    bank = vars_keep-bank d.ready.set_up k ch d.bank;
    vars = kinds k m f v ch;
  }

  -- A call on a ready process that holds some contents returns, and the process then holds what the
  -- call's description makes of them: no call disturbs another section. The call is in the bounds of
  -- `IsOp`, and the map has a power of two of variables.
  pub call_op-Models :
      (op : Op)
      → IsPowerOfTwo c.num_vars
      → IsOp c op
      → (s' : State) × (call_op c h op s ≡ returned tt s') × Models c h s' (apply c op db)
  unfolding call_op new_entry append_entry counter_add counter_label var_set var_init
  call_op-Models (write_row call) some_vars ok =
      let t =
        write-Takes call.os s db.log call.filename call.lineno d.ready d.log d.word
          ok.filename_short call.text ok.text_short in
      (
        t.after,
        bind_returned (write call.os (some call.text) call.filename call.lineno) (λ row. pure tt) s
            t.returns,
        log_step t.after _ t.ready t.represents (omega arith) t.changes,
      )
  call_op-Models (log_event os flowid msgref str len) some_vars ok =
      let t = time_event4-Takes os s db.log d.ready d.log d.word flowid msgref str len ok in
      (
        t.after,
        bind_returned (time_event4 os flowid msgref str len) (λ row. pure tt) s t.returns,
        log_step t.after _ t.ready t.represents (omega arith) t.changes,
      )
  call_op-Models (append_value_to i t x) some_vars ok =
      let a = append_scalar-Appends d.ready d.log i ok t x in
      (a.after, a.returns, log_step a.after _ a.ready a.represents d.word a.changes)
  call_op-Models (append_text_to i text) some_vars ok =
      let a = append_str-Appends d.ready d.log i ok.0 text ok.1 in
      (a.after, a.returns, log_step a.after _ a.ready a.represents d.word a.changes)
  call_op-Models (add_counter os id v) some_vars ok = (
    record s { mem = add_to_counter id v h s.mem },
    with_handle_set os tt _ s d.ready.has_handle
        ∙ with_element_some (load 4 36 s.mem) _ (num_counters_at d.ready.config)
            d.ready.set_up.rounded.counters,
    bank_step _ _ (add-HasBank d.ready.set_up id v d.bank)
        (add-Changes d.ready.set_up d.ready.config id v),
  )
  call_op-Models (label_counter os id src) some_vars ok = (
    record s { mem = set_label id src h s.mem },
    with_handle_set os tt _ s d.ready.has_handle
        ∙ with_element_some (load 4 36 s.mem) _ (num_counters_at d.ready.config)
            d.ready.set_up.rounded.counters,
    bank_step _ _ (label-HasBank d.ready.set_up id src d.bank)
        (label-Changes d.ready.set_up d.ready.config id src),
  )
  call_op-Models (set_variable k os id v) some_vars ok = (
    record s { mem = set_var k id v h s.mem },
    with_handle_set os tt _ s d.ready.has_handle
        ∙ with_element_some (load 4 48 s.mem) _ (num_vars_at d.ready.config) some_vars,
    vars_step k _ _ (set_var-HasVars k d.ready.set_up some_vars id v ok (d.vars k))
        (set-Changes d.ready.set_up d.ready.config k some_vars id v),
  )
  call_op-Models (init_variable k os id v src) some_vars ok = (
    record s { mem = init_var k id v src h s.mem },
    with_handle_set os tt _ s d.ready.has_handle
        ∙ with_element_some (load 4 48 s.mem) _ (num_vars_at d.ready.config) some_vars,
    vars_step k _ _ (init_var-HasVars k d.ready.set_up some_vars id v src ok (d.vars k))
        (init-Changes d.ready.set_up d.ready.config k some_vars id v src ok),
  )
