-- ===== src/Tests/Calls.antt =====
-- The theorems on sequences of calls at the small process.
use log2mem.Prelude.{◌<◌, ◌≡◌, arith, some, List, [], ◌∷◌, codes}
use log2mem.State.{State, returned}
use log2mem.Var.{int_var, value_size}
use log2mem.Ring.Append.{int}
use log2mem.Ring.Run.{Call, IsCall}
use log2mem.Db.{
  Models, Op, write_row, append_value_to, add_counter, set_variable, call_op, call_ops, apply,
  apply_all, AreOps,
}
use log2mem.Db.Step.{call_op-Models}
use log2mem.Db.Run.{empty_db, fresh-Models, call_ops-Models}
use log2mem.Tests.{small_os, small_handle, small_state, small_rounded, small_IsFresh, small_vars}

abbrev start_call : Call
start_call = record {
  os = small_os;
  text = codes "start";
  filename = some (codes "main.c");
  lineno = 3;
}

start-IsCall : IsCall start_call
start-IsCall = record { text_short = omega arith; filename_short = omega arith }

abbrev ops : List Op
ops =
    write_row start_call
    ∷ append_value_to 0 int 42
    ∷ add_counter small_os 3 5
    ∷ set_variable int_var small_os 1 9
    ∷ []

row_in_range : 0 < small_rounded.num_rows
unfolding log2mem.Create.round_config log2mem.Round.round_up_next_power_of_2
row_in_range = omega arith

ops-AreOps : AreOps small_rounded ops
unfolding value_size
ops-AreOps = (start-IsCall, (row_in_range, (tt, (omega arith, tt))))

call_op-Models_example :
    (s' : State) × (call_op small_rounded small_handle (write_row start_call) small_state
      ≡ returned tt s')
    × Models small_rounded small_handle s' (apply small_rounded (write_row start_call) empty_db)
call_op-Models_example =
    call_op-Models (fresh-Models small_IsFresh) (write_row start_call) small_vars start-IsCall

call_ops-Models_example :
    (s' : State) × (call_ops small_rounded small_handle ops small_state ≡ returned tt s')
    × Models small_rounded small_handle s' (apply_all small_rounded ops empty_db)
call_ops-Models_example =
    call_ops-Models small_state empty_db ops small_vars ops-AreOps (fresh-Models small_IsFresh)
