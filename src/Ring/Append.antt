-- ===== src/Ring/Append.antt =====
-- The append functions of liblog2mem/log2mem.h on a ready process: each appends its item to the
-- entry of the row's slot.
use log2mem.Prelude.{
  ℕ, ◌+◌, ◌^◌, ◌<◌, ◌≤◌, ◌≡◌, refl, ◌∙◌, ap, arith, Option, none, some, List, [], ◌∷◌, length, take,
}
use log2mem.Prelude.{length-append, length-take}
use log2mem.Memory.{Mem, le_bytes}
use log2mem.Memory.Frame.{length-le_bytes}
use log2mem.Changes.{Changes, InRows}
use log2mem.Config.{Config}
use log2mem.State.{Handle, State, M, returned, undefined}
use log2mem.Ready.{IsReady}
use log2mem.Row.{push, push_str, c_string}
use log2mem.Row.{}
use log2mem.Row.Item.{Item}
use log2mem.Row.Push.{push_str-eq-push}
use log2mem.Row.Append.{push-c_string}
use log2mem.Row.Slot.{slot}
use log2mem.Row.Log.{
  appending, append_value, append_uint, append_int, append_ulong, append_long, append_float,
  append_double, append_char, append_str, append_str2,
}
use log2mem.Ring.{Log, Represents, append_entry}
use log2mem.Ring.Refine.{push_refines, push-Changes}

-- The types of value that have an append function.
pub data Scalar : Type 0 where
  uint : Scalar
  int : Scalar
  ulong : Scalar
  long : Scalar
  float : Scalar
  double : Scalar
  char : Scalar

-- The append function of a type.
abbrev pub append_scalar : Scalar → Option ℕ → ℕ → M (Unit {0})
append_scalar uint = append_uint
append_scalar int = append_int
append_scalar ulong = append_ulong
append_scalar long = append_long
append_scalar float = append_float
append_scalar double = append_double
append_scalar char = append_char

-- The item that it appends: the tag of the type and as many bytes as the type has.
abbrev pub scalar_item : Scalar → ℕ → Item
scalar_item uint v = record { kind = 3; bytes = le_bytes 4 v }
scalar_item int v = record { kind = 4; bytes = le_bytes 4 v }
scalar_item ulong v = record { kind = 5; bytes = le_bytes 8 v }
scalar_item long v = record { kind = 6; bytes = le_bytes 8 v }
scalar_item float v = record { kind = 7; bytes = le_bytes 4 v }
scalar_item double v = record { kind = 8; bytes = le_bytes 8 v }
scalar_item char v = record { kind = 9; bytes = le_bytes 1 v }

abbrev pub string_item : List ℕ → Item
string_item text = record { kind = 2; bytes = c_string text }

pub appending_set :
    (r : ℕ) (f : ℕ → Mem → Option Mem) {h : Handle} {m : Mem} (s : State)
    → s.handle ≡ some h
    → f r s.mem ≡ some m
    → appending (some r) f s ≡ returned tt (record s { mem = m })
unfolding appending
appending_set r f s p q =
    ap
      (λ (o : Option Handle). elim o [
        | none ↦ undefined
        | some h ↦ elim (f r s.mem) [
          | none ↦ undefined
          | some m ↦ returned tt (record s { mem = m })
        ]
      ])
      p
    ∙ ap
        (λ (o : Option Mem). elim o [
          | none ↦ undefined
          | some m ↦ returned tt (record s { mem = m })
        ])
        q

module _ {c : Config} {h : Handle} {s : State} {l : Log} (r : IsReady c h s)
    (v : Represents c h s.mem l) (i : ℕ) (lt : i < c.num_rows) where
  -- What a call does that appends an item.
  pub record Appends (call : M (Unit {0})) (x : Item) : Type 0 where
    pub after : State
    pub returns : call s ≡ returned tt after
    pub ready : IsReady c h after
    pub represents : Represents c h after.mem (append_entry c i x l)
    pub changes : Changes (InRows h) s.mem after.mem

  pushes :
      (f : ℕ → Mem → Option Mem) (x : Item)
      → x.kind < 256
      → length x.bytes + 8 < 2 ^ 31
      → f (slot c h i) s.mem ≡ some (push (slot c h i) x.kind x.bytes s.mem)
      → Appends (appending (some (slot c h i)) f) x
  pushes f x kind short e =
      let done = push_refines r.set_up i x lt kind short v in
      record {
        after = record s { mem = push (slot c h i) x.kind x.bytes s.mem };
        returns = appending_set (slot c h i) f s r.has_handle e;
        ready = record { has_handle = r.has_handle; config = done.config; set_up = r.set_up };
        represents = done;
        changes = push-Changes r.set_up i x lt kind short v;
      }

  value_pushes :
      (kind size d : ℕ)
      → kind < 256
      → size < 256
      → Appends
          (append_value kind size (some (slot c h i)) d)
          (record { kind = kind; bytes = le_bytes size d })
  unfolding append_value
  value_pushes kind size d p q =
      pushes (λ r m. some (push r kind (le_bytes size d) m))
        (record { kind = kind; bytes = le_bytes size d }) p (omega (arith, length-le_bytes size d))
        refl

  -- The append functions of the seven types of value, on a ready process that holds a log and a row
  -- of it, return and append the item with the type's tag and bytes to the row's entry, if it has
  -- room.
  pub append_scalar-Appends :
      (t : Scalar) (d : ℕ) → Appends (append_scalar t (some (slot c h i)) d) (scalar_item t d)
  unfolding append_uint append_int append_ulong append_long append_float append_double append_char
  append_scalar-Appends uint d = value_pushes 3 4 d (omega arith) (omega arith)
  append_scalar-Appends int d = value_pushes 4 4 d (omega arith) (omega arith)
  append_scalar-Appends ulong d = value_pushes 5 8 d (omega arith) (omega arith)
  append_scalar-Appends long d = value_pushes 6 8 d (omega arith) (omega arith)
  append_scalar-Appends float d = value_pushes 7 4 d (omega arith) (omega arith)
  append_scalar-Appends double d = value_pushes 8 8 d (omega arith) (omega arith)
  append_scalar-Appends char d = value_pushes 9 1 d (omega arith) (omega arith)

  -- `log2mem_append_str2`, on a ready process that holds a log and a row of it, returns and appends
  -- the first `len` bytes of the object and a NUL, if the entry has room. The object has `len` bytes,
  -- and `len` with the header fits an `int`.
  pub append_str2-Appends :
      (len : ℕ) (str : List ℕ)
      → len ≤ length str
      → len + 9 < 2 ^ 31
      → Appends (append_str2 (some (slot c h i)) (some str) len) (string_item (take len str))
  unfolding append_str2
  append_str2-Appends len str enough short =
      pushes (λ r. push_str r 2 len str) (string_item (take len str)) (omega arith)
        (omega (arith, length-append (take len str) (0 ∷ []), length-take len str))
        (push_str-eq-push (slot c h i) 2 len str s.mem enough short)

  -- `log2mem_append_str`, on a ready process that holds a log and a row of it, returns and appends
  -- the text and its NUL, if the entry has room. The text is short enough for an `int`.
  pub append_str-Appends :
      (text : List ℕ)
      → length text + 9 < 2 ^ 31
      → Appends (append_str (some (slot c h i)) (some text)) (string_item text)
  unfolding append_str append_str2
  append_str-Appends text short =
      pushes (λ r. push_str r 2 (length text) (c_string text)) (string_item text) (omega arith)
        (omega (arith, length-append text (0 ∷ []))) (push-c_string (slot c h i) 2 text s.mem short)
