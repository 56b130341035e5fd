-- ===== src/Util/Rows/Terse.antt =====
-- In terse mode the tool prints the texts that the last calls of `log2mem_write` have logged.
use log2mem.Prelude.{
  ℕ, zero, suc, ◌+◌, ◌-◌, ◌^◌, ◌≤◌, ◌<◌, ◌≡◌, refl, ◌∙◌, ap, ◌⊎◌, inl, inr, arith,
}
use log2mem.Prelude.{
  List, [], ◌∷◌, ◌++◌, length, drop, codes, Option, none, some, true, false, Bool-cases, bit_and,
  leb, leb_of_le, ==_of_ne, length-append, ◌==◌,
}
use Prim.Native.Nat.{min}
use log2mem.Memory.{Mem, load}
use log2mem.Config.{Config, memlog_fileline}
use log2mem.State.{Handle}
use log2mem.Row.{c_string}
use log2mem.Row.Item.{Item, append_item, item_size, items_size, items_size-append}
use log2mem.Row.Slot.{slot, slot_of}
use log2mem.Row.Stamp.{place_items, filename_item, lineno_item}
use log2mem.Ring.{empty_log, Represents}
use log2mem.Ready.{IsSetUp}
use log2mem.Ring.Append.{string_item}
use log2mem.Ring.Run.{Call, call_items, write_log}
use log2mem.Util.Run.{done}
use log2mem.Util.Format.{Libc, Globals}
use log2mem.Util.Item.Show.{items_text, data_text, up_to_nul}
use log2mem.Util.Item.{filename, lineno, tag_of, delim_before}
use log2mem.Util.Rows.{print_rows}
use log2mem.Util.Rows.Show.{entry_line}
use mathlib.Core.List.{append-nil}
use log2mem.Util.Rows.Recent.{lines_of}
use log2mem.Util.Rows.Calls.{nth_items, call_line, print_rows-eq-calls}
use log2mem.Util.Rows.{row_head}

-- The text of the call has no NUL, and its row has room for it behind the place of the call.
pub record IsLegible (c : Config) (call : Call) : Type 0 where
  pub no_nul : up_to_nul (c_string call.text) ≡ call.text
  pub fits :
      items_size (place_items c call.filename call.lineno) + (9 + length call.text) ≤ c.row_len

abbrev pub AreLegible : Config → List Call → Type 0
AreLegible c [] = Unit
AreLegible c (call ∷ calls) = IsLegible c call × AreLegible c calls

-- The texts of the calls, a line each.
unfoldable pub text_lines : List Call → List ℕ
text_lines [] = []
text_lines (call ∷ calls) = call.text ++ codes "\n" ++ text_lines calls

no_delim : (g : Globals) → delim_before g false ≡ []
unfolding delim_before
no_delim g = elim (Bool-cases g.showdelim) [ inl p ↦ rw p refl | inr p ↦ rw p refl ]

-- Items of a place, which print nothing in terse mode and ask for no delimiter.
abbrev AreSilent : List Item → Type 0
AreSilent [] = Unit
AreSilent (x ∷ xs) = ((tag_of x.kind ≡ filename) ⊎ (tag_of x.kind ≡ lineno)) × AreSilent xs

silent_then :
    (lc : Libc) (g : Globals) (xs : List Item) (text : List ℕ)
    → g.terse ≡ true
    → AreSilent xs
    → items_text lc g false (xs ++ string_item text ∷ []) ≡ up_to_nul (c_string text)
unfolding items_text data_text tag_of
silent_then lc g [] text terse ok = rw (no_delim g) (append-nil (up_to_nul (c_string text)))
silent_then lc g (x ∷ xs) text terse ok = elim (ok.0) [
  | inl e ↦ rw (e, no_delim g, terse) (silent_then lc g xs text terse ok.1)
  | inr e ↦ rw (e, no_delim g, terse) (silent_then lc g xs text terse ok.1)
]

append-AreSilent :
    (n : ℕ) (xs : List Item) (x : Item)
    → AreSilent xs
    → (tag_of x.kind ≡ filename) ⊎ (tag_of x.kind ≡ lineno)
    → AreSilent (append_item n xs x)
append-AreSilent n xs x ok one = elim (Bool-cases (leb (items_size xs + item_size x) n)) [
  | inl p ↦ rw p (behind xs x ok one)
  | inr p ↦ rw p ok
]
  where
    behind :
        (xs : List Item) (x : Item)
        → AreSilent xs
        → (tag_of x.kind ≡ filename) ⊎ (tag_of x.kind ≡ lineno)
        → AreSilent (xs ++ x ∷ [])
    behind [] x ok one = (one, tt)
    behind (y ∷ xs) x ok one = (ok.0, behind xs x ok.1 one)

place_items-AreSilent :
    (c : Config) (fn : Option (List ℕ)) (line : ℕ) → AreSilent (place_items c fn line)
unfolding place_items tag_of
place_items-AreSilent c none line = tt
place_items-AreSilent c (some f) line = elim (Bool-cases (bit_and c.options memlog_fileline == 0)) [
  | inl p ↦ rw p tt
  | inr p ↦ rw p (
      append-AreSilent c.row_len (append_item c.row_len [] (filename_item f)) (lineno_item line)
        (append-AreSilent c.row_len [] (filename_item f) tt (inl refl)) (inr refl))
]

terse_head :
    (lc : Libc) (g : Globals) (options id ts tid : ℕ)
    → g.terse ≡ true
    → row_head lc g options id ts tid ≡ []
unfolding row_head
terse_head lc g options id ts tid terse = rw (terse) refl

-- The terse line of a legible call is its text.
terse_line :
    (lc : Libc) (g : Globals) (c : Config) (call : Call) (k ts tid : ℕ)
    → g.terse ≡ true
    → IsLegible c call
    → entry_line lc g c.options (record { id = k; items = call_items c call }) ts tid
      ≡ call.text ++ codes "\n"
unfolding entry_line
terse_line lc g c call k ts tid terse ok =
    rw
      (
        leb_of_le
            (items_size (place_items c call.filename call.lineno)
              + item_size (string_item call.text))
            c.row_len room,
        ==_of_ne
            (items_size (place_items c call.filename call.lineno ++ string_item call.text ∷ [])) 0
            (λ e. omega (arith, e, size)),
        terse_head lc g c.options k ts tid terse,
        silent_then lc g (place_items c call.filename call.lineno) call.text terse
            (place_items-AreSilent c call.filename call.lineno),
        ok.no_nul,
      )
      refl
  where
    nul : length (c_string call.text) ≡ length call.text + 1
    nul = omega (arith, length-append call.text (0 ∷ []))

    size :
        items_size (place_items c call.filename call.lineno ++ string_item call.text ∷ [])
        ≡ items_size (place_items c call.filename call.lineno)
          + (8 + length (c_string call.text) + 0)
    size = items_size-append (place_items c call.filename call.lineno) (string_item call.text ∷ [])

    room :
        items_size (place_items c call.filename call.lineno) + item_size (string_item call.text)
        ≤ c.row_len
    room = omega (arith, nul, ok.fits)

abbrev AreShown : (ℕ → List ℕ) → ℕ → List Call → Type 0
AreShown line n [] = Unit
AreShown line n (call ∷ calls) = (line n ≡ call.text ++ codes "\n") × AreShown line (suc n) calls

lines_of-text_lines :
    (line : ℕ → List ℕ) (calls : List Call) (n k d count : ℕ)
    → d + count ≡ length calls
    → k ≡ n + d
    → AreShown line n calls
    → lines_of line count k ≡ text_lines (drop d calls)
unfolding lines_of text_lines
lines_of-text_lines line [] n k zero zero e at shown = refl
lines_of-text_lines line [] n k zero (suc count) e at shown = absurd (omega arith)
lines_of-text_lines line [] n k (suc d) count e at shown = absurd (omega arith)
lines_of-text_lines line (call ∷ calls) n k zero zero e at shown = absurd (omega arith)
lines_of-text_lines line (call ∷ calls) n k zero (suc count) e at shown =
    rw
      (
        ap line (at ∙ omega arith) ∙ shown.0,
        lines_of-text_lines line calls (suc n) (k + 1) 0 count (omega arith) (omega arith) shown.1,
      )
      refl
lines_of-text_lines line (call ∷ calls) n k (suc d) count e at shown =
    lines_of-text_lines line calls (suc n) k d count (omega arith) (omega arith) shown.1

terse_entry :
    (lc : Libc) (g : Globals) (c : Config) (call : Call) (k ts tid : ℕ) (items : List Item)
    → g.terse ≡ true
    → items ≡ call_items c call
    → IsLegible c call
    → entry_line lc g c.options (record { id = k; items = items }) ts tid ≡ call.text ++ codes "\n"
terse_entry lc g c call k ts tid items terse e ok =
    ap (λ (t : List Item). entry_line lc g c.options (record { id = k; items = t }) ts tid) e
    ∙ terse_line lc g c call k ts tid terse ok

nth_items-AreShown :
    (c : Config) (line : ℕ → List ℕ) (calls : List Call) (n : ℕ)
    → AreLegible c calls
    → ((j k : ℕ) (call : Call)
        → k ≡ n + j
        → nth_items c calls j ≡ call_items c call
        → IsLegible c call
        → line k ≡ call.text ++ codes "\n")
    → AreShown line n calls
unfolding nth_items
nth_items-AreShown c line [] n ok e = tt
nth_items-AreShown c line (call ∷ calls) n ok e = (
  e 0 n call (omega arith) refl ok.0,
  nth_items-AreShown c line calls (suc n) ok.1
      (λ j k other p q l. e (suc j) k other (omega arith) q l),
)

zero_add : (n : ℕ) → 0 + n ≡ n
zero_add n = omega arith

module _ (size fuel : ℕ) (lc : Libc) (g : Globals) {c : Config} {h : Handle} {m : Mem}
    (u : IsSetUp c h) (calls : List Call) (v : Represents c h m (write_log c empty_log calls))
    (word : length calls < 2 ^ 32) (inside : h.counter_labels ≤ size) (small : size < 2 ^ 31)
    (enough : c.row_len < fuel) where
  -- In terse mode a map whose log legible calls have made is shown as their texts.
  pub print_rows-eq-text_lines :
      AreLegible c calls
      → g.terse ≡ true
      → print_rows lc g size fuel (some h) m
        ≡ done (text_lines (drop (length calls - c.num_rows) calls))
  print_rows-eq-text_lines legible terse =
      let line : ℕ → List ℕ = call_line size fuel lc g u calls v word inside small enough in
      let shown : AreShown line 0 calls =
        nth_items-AreShown c line calls 0 legible (λ j k call p q l.
          terse_entry lc g c call k (load 8 (slot c h (slot_of c k) + 8) m)
            (load 4 (slot c h (slot_of c k)) m) (nth_items c calls k) terse
            (ap (nth_items c calls) (p ∙ zero_add j) ∙ q) l) in
      print_rows-eq-calls size fuel lc g u calls v word inside small enough
      ∙ ap done (
          lines_of-text_lines line calls 0 (length calls - c.num_rows) (length calls - c.num_rows)
            (min (length calls) c.num_rows) (omega arith) (omega arith) shown)
