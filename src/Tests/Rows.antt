-- ===== src/Tests/Rows.antt =====
-- The theorems on the rows at the small process.
use log2mem.Prelude.{ℕ, ◌+◌, ◌<◌, ◌≤◌, ◌≡◌, arith, some, List, [], ◌∷◌, ◌++◌, codes, take}
use log2mem.Memory.{load}
use log2mem.Memory.Frame.{Frame}
use log2mem.State.{State, returned}
use log2mem.Ready.Index.{row_len_at}
use log2mem.Row.{push, push_str, config_row_len}
use log2mem.Row.Item.{Item, IsRow, append_item}
use log2mem.Row.Push.{push-IsRow, push-Frame, push_str-eq-push}
use log2mem.Row.Slot.{slot, slot_of}
use log2mem.Row.Log.{write}
use log2mem.Row.Stamp.{place_items}
use log2mem.Ring.{empty_log, new_entry, append_entry}
use log2mem.Ring.Append.{
  Appends, append_scalar-Appends, append_scalar, scalar_item, string_item, int,
}
use log2mem.Ring.Call.{Takes, write-Takes}
use log2mem.Ring.Event.{all_or_none, time_event4-Takes}
use log2mem.Row.Event.{time_event4}
use log2mem.Row.Event.Items.{event_text, IsText, event_items}
use log2mem.Ring.Run.{Call, IsCall, writes, writes-ids}
use log2mem.Tests.{
  small_os, small_handle, small_state, small_rounded, small_IsReady, small_IsFresh,
  small_Represents,
}

abbrev row : ℕ
row = slot small_rounded small_handle 0

in_range : 0 < small_rounded.num_rows
unfolding log2mem.Create.round_config log2mem.Round.round_up_next_power_of_2
in_range = omega arith

row_len : config_row_len small_state.mem ≡ 64
unfolding log2mem.Create.round_config
row_len = row_len_at small_Represents.config

no_items : IsRow small_state.mem row []
no_items = (small_Represents.entries 0 in_range).row

abbrev bytes : List ℕ
bytes = 1 ∷ 2 ∷ 3 ∷ 4 ∷ []

abbrev item : Item
item = record { kind = 3; bytes = bytes }

push-IsRow_example :
    IsRow
      (push row 3 bytes small_state.mem)
      row
      (append_item (config_row_len small_state.mem) [] item)
push-IsRow_example =
    push-IsRow row [] small_state.mem (omega (arith, row_len)) (omega arith) no_items 3 bytes
      (omega arith) (omega arith)

push-Frame_example :
    Frame
      (row + 20)
      (row + 24 + config_row_len small_state.mem)
      small_state.mem
      (push row 3 bytes small_state.mem)
push-Frame_example =
    push-Frame row [] small_state.mem (omega (arith, row_len)) (omega arith) no_items 3 bytes
      (omega arith)

push_str-eq-push_example :
    push_str row 2 5 (codes "hello world") small_state.mem
    ≡ some (push row 2 (take 5 (codes "hello world") ++ 0 ∷ []) small_state.mem)
push_str-eq-push_example =
    push_str-eq-push row 2 5 (codes "hello world") small_state.mem (omega arith) (omega arith)

write-Takes_example :
    Takes small_rounded small_handle small_state empty_log
      (append_entry small_rounded
        (slot_of small_rounded 0)
        (string_item (codes "started"))
        (new_entry small_rounded (place_items small_rounded (some (codes "main.c")) 12) empty_log))
      (write small_os (some (codes "started")) (some (codes "main.c")) 12)
write-Takes_example =
    write-Takes small_os small_state empty_log (some (codes "main.c")) 12 small_IsReady
      small_Represents (omega arith) (omega arith) (codes "started") (omega arith)

append_scalar-Appends_example :
    Appends small_IsReady small_Represents 0 in_range
      (append_scalar int (some row) 7)
      (scalar_item int 7)
append_scalar-Appends_example =
    append_scalar-Appends small_IsReady small_Represents 0 in_range int 7

abbrev call : ℕ → Call
call n = record { os = small_os; text = codes "tick"; filename = some (codes "main.c"); lineno = n }

abbrev three_calls : List Call
three_calls = call 10 ∷ call 11 ∷ call 12 ∷ []

is_call : (n : ℕ) → IsCall (call n)
is_call n = record { text_short = omega arith; filename_short = omega arith }

writes-ids_example :
    (s' : State) × (writes three_calls small_state ≡ returned tt s')
    × (load 4 28 s'.mem ≡ 3)
    × ((k : ℕ)
        → k < 3
        → 3 ≤ k + small_rounded.num_rows
        → load 4 (slot small_rounded small_handle (slot_of small_rounded k) + 16) s'.mem ≡ k)
writes-ids_example =
    writes-ids small_state three_calls small_IsFresh (is_call 10, (is_call 11, (is_call 12, tt)))
      (omega arith)

abbrev step : List ℕ
step = codes "step"

event-IsText : IsText (event_text (some step) 4) 4
event-IsText = ground arith

time_event4-Takes_example :
    Takes small_rounded small_handle small_state empty_log
      (new_entry small_rounded
        (all_or_none small_rounded (event_items 7 8 (event_text (some step) 4) 4))
        empty_log)
      (time_event4 small_os 7 8 (some step) 4)
time_event4-Takes_example =
    time_event4-Takes small_os small_state empty_log small_IsReady small_Represents (omega arith) 7
      8 (some step) 4 event-IsText
