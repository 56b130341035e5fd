-- ===== src/Util/Named.antt =====
-- The parts of `set_var_by_name` of util/log2memutil.c: where the label ends, and the search for it.
pub mod Search
use log2mem.Prelude.{
  ℕ, zero, suc, ◌+◌, ◌-◌, ◌==◌, ltb, bit_and, if◌then◌else◌, ◌||◌, Bool, true, false, Option, none,
  some, List, [], ◌∷◌, ◌++◌, drop, codes,
}
use log2mem.Memory.{Mem, load, store}
use log2mem.State.{Handle}
use log2mem.Var.{Kind, double_var, int_var, base, size, value_size, flags, text, log2mem_e_used}
use log2mem.Util.Run.{Run, done, fault, ◌>>=◌}
use log2mem.Util.Format.{Libc}
use log2mem.Util.Tool.{Tool, T, pure, die, ◌>>◌}

-- A byte before the label.
abbrev pub with_byte : ℕ → Option (List ℕ × List ℕ) → Option (List ℕ × List ℕ)
with_byte x none = none
with_byte x (some (label, p)) = some (x ∷ label, p)

-- The texts before and behind the first `=`, if there is one.
unfoldable pub split_at_equals : List ℕ → Option (List ℕ × List ℕ)
split_at_equals [] = none
split_at_equals (x ∷ xs) =
    let rest = with_byte x (split_at_equals xs) in if x == b'=' then some ([], xs) else rest

-- `strcmp(label, text) == 0` for the text at `a`, of which `n` bytes can be read.
unfoldable pub same_text : ℕ → List ℕ → ℕ → Mem → Run Bool
same_text zero label a m = fault
same_text (suc n) [] a m = done (m a == 0)
same_text (suc n) (x ∷ xs) a m =
    let rest = same_text n xs (a + 1) m in if m a == x then rest else done false

-- `sscanf` of the value to a variable; it stores nothing if it finds no number.
unfoldable pub scan_value : Libc → Kind → List ℕ → Option ℕ
scan_value lc double_var p = lc.scan_double p
scan_value lc int_var p = lc.scan_int p

unfoldable pub store_scanned : Kind → ℕ → Option ℕ → Mem → Mem
store_scanned k a none m = m
store_scanned k a (some v) m = store (value_size k) a v m

-- The search in one of the two arrays: `count` variables at `a`. The result is `found`.
unfoldable pub set_named : Kind → ℕ → List ℕ → Option ℕ → ℕ → ℕ → Bool → Mem → Run (Bool × Mem)
set_named k end label value zero a found m = done (found, m)
set_named k end label value (suc count) a found m =
    let next = set_named k end label value count (a + size k) in
    let compared =
      (same_text (end - (a + text k)) label (a + text k) m >>= λ same.
      if same then next true (store_scanned k a value m) else next found m) in
    let variable =
      if bit_and (load 4 (a + flags k) m) log2mem_e_used == 0 then next found m else compared in
    if ltb end (a + size k) then fault else variable

-- The search in both arrays.
unfoldable pub set_both : Libc → ℕ → Handle → List ℕ → List ℕ → Mem → Run (Bool × Mem)
set_both lc end h label p m =
    set_named double_var end label (scan_value lc double_var p) (load 4 48 m) (base double_var h)
      false m
    >>= λ r.
        set_named int_var end label (scan_value lc int_var p) (load 4 48 r.1) (base int_var h) r.0
          r.1

unfoldable pub warning : Bool → List ℕ → List ℕ
warning found label =
    if found then [] else codes "warning, no variable found with name \"" ++ label ++ codes "\"\n"

unfoldable pub set_label_value : Libc → ℕ → Handle → List ℕ → List ℕ → T (Unit {0})
set_label_value lc end h label p t = set_both lc end h label p t.state.mem >>= λ r. done (
  tt,
  record {
    state = record t.state { mem = r.1 };
    globals = t.globals;
    out = t.out ++ warning r.0 label;
  },
)

unfoldable pub set_by_label : Libc → ℕ → Option Handle → List ℕ → List ℕ → T (Unit {0})
set_by_label lc end none label p = pure tt
set_by_label lc end (some h) [] p = pure tt
set_by_label lc end (some h) (x ∷ label) p = set_label_value lc end h (x ∷ label) p
