-- ===== src/Ring/Call.antt =====
-- `log2mem_get_row` and `log2mem_write` of liblog2mem/log2mem.c on a ready process, one after another.
use log2mem.Prelude.{ℕ, ◌+◌, ◌^◌, ◌<◌, ◌≡◌, ◌∙◌, ap, Option, none, some, List, length}
use native.Mathlib.Nat.{mod-lt}
use log2mem.Memory.{Mem}
use log2mem.Changes.{Changes, Changes-trans, InRows}
use log2mem.Config.{Config}
use log2mem.State.{Handle, State, Os, M, returned, undefined, ◌>>◌, pure}
use log2mem.Ready.{IsReady}
use log2mem.Ready.Index.{IsPowerOfTwo-pos}
use log2mem.Ready.Prepared.{bind_returned, with_handle_set}
use log2mem.Row.Stamp.{IsShort, place_items}
use log2mem.Row.Slot.{slot, slot_of}
use log2mem.Row.Log.{init_row, new_row, run_mem, write, append_str}
use log2mem.Ring.{Log, Represents, new_entry, append_entry}
use log2mem.Ring.Refine.{IsTaken, new_row-IsTaken}
use log2mem.Ring.Append.{append_str-Appends, string_item}

-- What a call does that takes a row: the row's address and the log that results.
pub record Takes (c : Config) (h : Handle) (s : State) (l l' : Log) (call : M (Option ℕ))
    : Type 0 where
  pub after : State
  pub returns : call s ≡ returned (some (slot c h (slot_of c l.next))) after
  pub ready : IsReady c h after
  pub represents : Represents c h after.mem l'
  pub changes : Changes (InRows h) s.mem after.mem

run_mem_returns :
    {A : Type 0} (f : Mem → Option (A × Mem)) (s : State) {a : A} {m : Mem}
    → f s.mem ≡ some (a, m)
    → run_mem f s ≡ returned a (record s { mem = m })
unfolding run_mem
run_mem_returns {A} f s e =
    ap
      (λ (o : Option (A × Mem)). elim o [
        | none ↦ undefined
        | some (a, m) ↦ returned a (record s { mem = m })
      ])
      e

pub init_row_returns :
    (os : Os) {c : Config} {h : Handle} (s : State) (l : Log) (fn : Option (List ℕ)) (lineno : ℕ)
    (r : IsReady c h s) (t : IsTaken r.set_up os fn lineno s.mem l)
    → init_row os fn lineno s
      ≡ returned (some (slot c h (slot_of c l.next))) (record s { mem = t.after })
unfolding init_row
init_row_returns os {h = h} s l fn lineno r t =
    with_handle_set os none _ s r.has_handle
    ∙ bind_returned (run_mem (new_row os fn lineno h)) (λ a. pure (some a)) s
        (run_mem_returns (new_row os fn lineno h) s t.result)

module _ (os : Os) {c : Config} {h : Handle} (s : State) (l : Log) (fn : Option (List ℕ))
    (lineno : ℕ) (r : IsReady c h s) (v : Represents c h s.mem l) (word : l.next < 2 ^ 32)
    (short : IsShort fn) where
  -- `log2mem_get_row`, on a ready process that holds a log, returns the row in the slot of the next
  -- id; the process then holds the log with a new entry of that id, which has the place of the call
  -- if the options ask for it. The file's name fits a row's size.
  pub init_row-Takes :
      Takes c h s l (new_entry c (place_items c fn lineno) l) (init_row os fn lineno)
  init_row-Takes =
      let taken = new_row-IsTaken r.set_up os fn lineno s.mem l v word short in
      record {
        after = record s { mem = taken.after };
        returns = init_row_returns os s l fn lineno r taken;
        ready = record {
          has_handle = r.has_handle;
          config = taken.represents.config;
          set_up = r.set_up;
        };
        represents = taken.represents;
        changes = taken.changes;
      }

  -- `log2mem_write`, on a ready process that holds a log, returns the row in the slot of the next
  -- id; the process then holds the log with a new entry of that id, which has the place of the call
  -- if the options ask for it, and then the text, as far as they have room. Text and file name fit a
  -- row's size.
  pub write-Takes :
      (text : List ℕ)
      → length text + 9 < 2 ^ 31
      → Takes c h s l
          (append_entry c
            (slot_of c l.next)
            (string_item text)
            (new_entry c (place_items c fn lineno) l))
          (write os (some text) fn lineno)
  unfolding write
  write-Takes text long =
      let row : Option ℕ = some (slot c h (slot_of c l.next)) in
      let added =
        append_str-Appends init_row-Takes.ready init_row-Takes.represents (slot_of c l.next)
          (mod-lt l.next (IsPowerOfTwo-pos r.set_up.rounded.rows)) text long in
      record {
        after = added.after;
        returns =
            bind_returned (init_row os fn lineno) (λ r. append_str r (some text) >> pure r) s
              init_row-Takes.returns
            ∙ bind_returned (append_str row (some text)) (λ _. pure row) init_row-Takes.after
                added.returns;
        ready = added.ready;
        represents = added.represents;
        changes = Changes-trans init_row-Takes.changes added.changes;
      }
