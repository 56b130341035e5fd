-- ===== src/Ring/Run.antt =====
-- A program that logs with `log2mem_write`: what the map holds after any number of calls.
use log2mem.Prelude.{
  ℕ, suc, ◌+◌, ◌^◌, ◌≤◌, ◌<◌, ◌≡◌, refl, ◌∙◌, arith, Option, some, List, [], ◌∷◌, length,
}
use native.Mathlib.Nat.{mod-lt}
use mathlib.Core.Path.{subst}
use log2mem.Memory.{load}
use log2mem.Changes.{Changes, none_left, Changes-trans, InRows}
use log2mem.Config.{Config}
use log2mem.State.{Handle, State, Os, M, returned, ◌>>=◌}
use log2mem.Ready.{IsReady}
use log2mem.Ready.Fresh.{IsFresh}
use log2mem.Ready.Index.{IsPowerOfTwo-pos}
use log2mem.Ready.Prepared.{bind_returned}
use log2mem.Row.Stamp.{IsShort, place_items}
use log2mem.Row.Slot.{slot, slot_of}
use log2mem.Row.Log.{write}
use log2mem.Row.Item.{Item, append_item}
use log2mem.Ring.Append.{string_item}
use log2mem.Ring.{Log, empty_log, Represents, new_entry, append_entry}
use log2mem.Ring.Recent.{Logged, start, took, appended, Logged-IsRecent}
use log2mem.Ring.Call.{write-Takes}
use log2mem.Start.{fresh-Represents}

-- The arguments of a call, and what the system answers during it.
pub record Call : Type 0 where
  pub os : Os
  pub text : List ℕ
  pub filename : Option (List ℕ)
  pub lineno : ℕ

-- Text and file name fit a row's size.
pub record IsCall (call : Call) : Type 0 where
  pub text_short : length call.text + 9 < 2 ^ 31
  pub filename_short : IsShort call.filename

abbrev pub AreCalls : List Call → Type 0
AreCalls [] = Unit
AreCalls (call ∷ calls) = IsCall call × AreCalls calls

-- Calls of `log2mem_write`, one after another.
unfoldable pub writes : List Call → M (Unit {0})
writes [] s = returned tt s
writes (call ∷ calls) s =
    (write call.os (some call.text) call.filename call.lineno >>= λ _. writes calls) s

-- What the calls make of a log.
abbrev pub call_items : Config → Call → List Item
call_items c call =
    append_item c.row_len (place_items c call.filename call.lineno) (string_item call.text)

abbrev pub logged_call : Config → Call → Log → Log
logged_call c call l =
    append_entry c (slot_of c l.next) (string_item call.text)
      (new_entry c (place_items c call.filename call.lineno) l)

abbrev pub write_log : Config → Log → List Call → Log
write_log c l [] = l
write_log c l (call ∷ calls) = write_log c (logged_call c call l) calls

-- What the run leaves: a ready process with the log that the calls make of `l`, of `n` rows.
pub record Ran (c : Config) (h : Handle) (n : ℕ) (l : Log) (calls : List Call) (s : State)
    : Type 0 where
  pub after : State
  pub returns : writes calls s ≡ returned tt after
  pub ready : IsReady c h after
  pub represents : Represents c h after.mem (write_log c l calls)
  pub logged : Logged c n (write_log c l calls)
  pub changes : Changes (InRows h) s.mem after.mem

pub writes-Ran :
    {c : Config} {h : Handle} (s : State) (l : Log) (n : ℕ) (calls : List Call)
    → IsReady c h s
    → Represents c h s.mem l
    → Logged c n l
    → AreCalls calls
    → n + length calls < 2 ^ 32
    → Ran c h (n + length calls) l calls s
unfolding writes
writes-Ran {c} s l n [] r v g ok word = record {
  after = s;
  returns = refl;
  ready = r;
  represents = v;
  logged = subst (λ t. Logged c t l) (omega arith) g;
  changes = none_left;
}
writes-Ran {c} {h} s l n (call ∷ calls) r v g ok word =
    let next : l.next ≡ n =
      (Logged-IsRecent (IsPowerOfTwo-pos r.set_up.rounded.rows) (omega arith) g).next in
    let first =
      write-Takes call.os s l call.filename call.lineno r v (omega (arith, next))
        ok.0.filename_short call.text ok.0.text_short in
    let rest =
      writes-Ran first.after _ (suc n) calls first.ready first.represents (appended (took g _) _ _)
        ok.1 (omega arith) in
    record {
      after = rest.after;
      returns =
          bind_returned (write call.os (some call.text) call.filename call.lineno)
            (λ _. writes calls) s first.returns
          ∙ rest.returns;
      ready = rest.ready;
      represents = rest.represents;
      logged =
          subst (λ t. Logged c t (write_log c (logged_call c call l) calls)) (omega arith)
            rest.logged;
      changes = Changes-trans first.changes rest.changes;
    }

-- After fewer than 2 ^ 32 calls of `log2mem_write` on a fresh process, whose texts and file names fit
-- a row's size, the next id in the map is the number of calls, and each of the last `num_rows` ids
-- stands in the row of its slot.
pub writes-ids :
    {c : Config} {h : Handle} {size : ℕ} (s : State) (calls : List Call)
    → IsFresh c h size s
    → AreCalls calls
    → length calls < 2 ^ 32
    → (s' : State) × (writes calls s ≡ returned tt s')
      × (load 4 28 s'.mem ≡ length calls)
      × ((k : ℕ)
          → k < length calls
          → length calls ≤ k + c.num_rows
          → load 4 (slot c h (slot_of c k) + 16) s'.mem ≡ k)
writes-ids {c} {h} s calls f ok word =
    let pos = IsPowerOfTwo-pos f.ready.set_up.rounded.rows in
    let ran = writes-Ran s empty_log 0 calls f.ready (fresh-Represents f) start ok (omega arith) in
    let recent = Logged-IsRecent pos (omega arith) ran.logged in
    (
      ran.after,
      ran.returns,
      omega (arith, ran.represents.next, recent.next),
      λ k p q.
          (ran.represents.entries (slot_of c k) (mod-lt k pos)).id
          ∙ recent.kept k (omega arith) (omega arith),
    )
