-- ===== src/Tests/Tool.antt =====
-- The theorems on what the tool shows, at the small process.
use log2mem.Prelude.{
  ℕ, ◌+◌, ◌-◌, ◌<◌, ◌≤◌, ◌≡◌, refl, arith, some, none, List, [], ◌∷◌, codes, true, length,
}
use Prim.Native.Nat.{min}
use log2mem.Memory.{Mem, load}
use log2mem.State.{State, MapResult, returned}
use log2mem.Row.Slot.{slot, slot_of}
use log2mem.Row.{c_string}
use log2mem.Row.Stamp.{place_items}
use log2mem.Ready.Attach.{attached_handle}
use log2mem.Util.Item.Show.{up_to_nul}
use log2mem.Ring.Run.{Call, AreCalls, writes, writes-ids}
use log2mem.Util.Run.{done}
use log2mem.Util.Format.{Libc, Globals}
use log2mem.Util.Tool.{Tool}
use log2mem.Util.Rows.{print_rows}
use log2mem.Util.Shown.{shown_line}
use log2mem.Util.Shown.Rows.{print_rows-eq-shown_line}
use log2mem.Util.Rows.Recent.{lines_of}
use log2mem.Util.Rows.Calls.{nth_items}
use log2mem.Util.Rows.Terse.{AreLegible, IsLegible, text_lines}
use log2mem.Util.Main.{Env, opt_filename, option_of, start_globals, main}
use log2mem.Util.Main.Dump.{terse_rows, main-eq-text_lines}
use log2mem.Tests.{
  small_os, small_config, small_state, small_handle, small_rounded, small_CanInit, small_IsFresh,
  no_bytes, idle_state,
}

abbrev pub small_libc : Libc
small_libc = record {
  show_double = λ v. codes "1.000000";
  show_float = λ v. codes "2.000000";
  scan_double = λ t. some 7;
  scan_int = λ t. some 42;
  localtime = λ s. record { year = 114; mon = 4; mday = 3; hour = 12; min = 30; sec = 5 };
}

abbrev call_of : List ℕ → ℕ → Call
call_of text lineno = record {
  os = small_os;
  text = text;
  filename = some (codes "main.c");
  lineno = lineno;
}

abbrev calls : List Call
calls = call_of (codes "start") 3 ∷ call_of (codes "read") 5 ∷ call_of (codes "stop") 9 ∷ []

calls-AreCalls : AreCalls calls
calls-AreCalls = (
  record { text_short = omega arith; filename_short = omega arith },
  (
    record { text_short = omega arith; filename_short = omega arith },
    (record { text_short = omega arith; filename_short = omega arith }, tt),
  ),
)

labels_inside : (small_handle).counter_labels ≤ 4096
unfolding log2mem.Layout.calculate_layout log2mem.Create.section_pointers
    log2mem.Create.round_config log2mem.Round.round_up_next_power_of_2
labels_inside = omega arith

short_rows : small_rounded.row_len < 65
unfolding log2mem.Create.round_config
short_rows = omega arith

print_rows-eq-shown_line_example :
    (s' : State) × (writes calls small_state ≡ returned tt s')
    × (print_rows small_libc start_globals 4096 65 (some small_handle) s'.mem
        ≡ done (
            lines_of
              (λ k.
                shown_line small_libc start_globals small_rounded.options k
                  (nth_items small_rounded calls k)
                  (load 8 (slot small_rounded small_handle (slot_of small_rounded k) + 8) s'.mem)
                  (load 4 (slot small_rounded small_handle (slot_of small_rounded k)) s'.mem))
              (min (length calls) small_rounded.num_rows)
              (length calls - small_rounded.num_rows)))
print_rows-eq-shown_line_example =
    print_rows-eq-shown_line 4096 65 small_libc start_globals small_state small_IsFresh calls
      calls-AreCalls (omega arith) labels_inside (omega arith) short_rows

logging :
    (s' : State) × (writes calls small_state ≡ returned tt s')
    × (load 4 28 s'.mem ≡ length calls)
    × ((k : ℕ)
        → k < length calls
        → length calls ≤ k + small_rounded.num_rows
        → load 4 (slot small_rounded small_handle (slot_of small_rounded k) + 16) s'.mem ≡ k)
logging = writes-ids small_state calls small_IsFresh calls-AreCalls (omega arith)

-- The system of the tool: the file is what the logging process has left.
abbrev tool_env : Env
tool_env = record {
  libc = small_libc;
  os = record small_os { attach_map = λ name. MapResult.mapped (logging.0).mem };
  size = 4096;
}

abbrev idle_tool : Tool
idle_tool = record { state = idle_state; globals = start_globals; out = [] }

call_of-IsLegible :
    (text : List ℕ) (lineno : ℕ)
    → length text ≤ 5
    → up_to_nul (c_string text) ≡ text
    → IsLegible small_rounded (call_of text lineno)
unfolding place_items log2mem.Create.round_config log2mem.Memory.le_bytes
call_of-IsLegible text lineno short clean = record { no_nul = clean; fits = omega arith }

legible : AreLegible small_rounded calls
unfolding up_to_nul
legible = (
  call_of-IsLegible (codes "start") 3 (omega arith) refl,
  (
    call_of-IsLegible (codes "read") 5 (omega arith) refl,
    (call_of-IsLegible (codes "stop") 9 (omega arith) refl, tt),
  ),
)

log_name : option_of (codes "log.dat") ≡ opt_filename
unfolding option_of log2mem.Util.Main.long_option log2mem.Util.Format.text_eq
    log2mem.Util.Format.starts_with
log_name = refl

main-eq-text_lines_example :
    main tool_env 65 (terse_rows (codes "log.dat")) idle_tool
    ≡ done (
      0,
      record {
        state = record idle_state {
          mem = (logging.0).mem;
          handle = some (attached_handle 4096 small_rounded);
        };
        globals = record { delim = codes " "; showdelim = true; terse = true };
        out = codes "read\nstop\n";
      },
    )
unfolding text_lines log2mem.Create.round_config log2mem.Round.round_up_next_power_of_2
    log2mem.Create.section_pointers
main-eq-text_lines_example =
    main-eq-text_lines small_os none small_config no_bytes idle_state small_CanInit calls
      calls-AreCalls (omega arith) logging.0 logging.1 tool_env refl (codes "log.dat") log_name refl
      65 short_rows labels_inside (omega arith) legible idle_tool
