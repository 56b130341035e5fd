-- ===== src/Util/Shown/Same.antt =====
-- The parts of the code print what is expected.
use log2mem.Prelude.{
  ℕ, zero, suc, ◌/◌, ◌^◌, ◌≡◌, ◌∙◌, refl, arith, ◌==◌, if◌then◌else◌, bit_and, bit_and-low, Bool,
  true, false, List, [], ◌∷◌, ==_of_ne,
}
use log2mem.Row.Item.{Item, items_size}
use log2mem.Time.{ts_to_timeval, ts_to_timespec}
use log2mem.Util.Format.{Libc, Globals, show_clock}
use log2mem.Util.Item.{tag_of, delim_after, delim_before}
use log2mem.Util.Item.Show.{items_text}
use log2mem.Util.Rows.{show_ts, row_head}
use log2mem.Util.Rows.Show.{entry_line}
use log2mem.Util.Shown.{
  nth_tag, kinds, is_place, shown_delim, shown_items, shown_time, shown_head, shown_line,
}

tag_of_lem : (kind : ℕ) → tag_of kind ≡ nth_tag kinds kind
unfolding tag_of
tag_of_lem zero = refl
tag_of_lem (suc zero) = refl
tag_of_lem (suc (suc zero)) = refl
tag_of_lem (suc (suc (suc zero))) = refl
tag_of_lem (suc (suc (suc (suc zero)))) = refl
tag_of_lem (suc (suc (suc (suc (suc zero))))) = refl
tag_of_lem (suc (suc (suc (suc (suc (suc zero)))))) = refl
tag_of_lem (suc (suc (suc (suc (suc (suc (suc zero))))))) = refl
tag_of_lem (suc (suc (suc (suc (suc (suc (suc (suc zero)))))))) = refl
tag_of_lem (suc (suc (suc (suc (suc (suc (suc (suc (suc zero))))))))) = refl
tag_of_lem (suc (suc (suc (suc (suc (suc (suc (suc (suc (suc zero)))))))))) = refl
tag_of_lem (suc (suc (suc (suc (suc (suc (suc (suc (suc (suc (suc n))))))))))) = ground arith

delim_after_lem : (kind : ℕ) → delim_after (tag_of kind) ≡ (if is_place kind then false else true)
unfolding tag_of
delim_after_lem kind = ground arith

delim_before_lem : (g : Globals) (want : Bool) → delim_before g want ≡ shown_delim g want
unfolding delim_before
delim_before_lem g want = ground arith

pick_lem :
    (s : ℕ) (a b c : List ℕ)
    → (if s == 12 then a else if s == 4 then b else if s == 8 then c else [])
      ≡ (if s == 4 then b else if s == 8 then c else if s == 12 then a else [])
pick_lem s a b c = ground arith

pub items_text_lem :
    (lc : Libc) (g : Globals) (want : Bool) (xs : List Item)
    → items_text lc g want xs ≡ shown_items lc g want xs
unfolding items_text
items_text_lem lc g want [] = refl
items_text_lem lc g want (x ∷ xs) =
    rw
      (
        delim_before_lem g want,
        delim_after_lem x.kind,
        tag_of_lem x.kind,
        items_text_lem lc g (if is_place x.kind then false else true) xs,
      )
      refl

show_ts_lem :
    (lc : Libc) (options ts : ℕ) → show_ts lc options ts ≡ shown_time lc (bit_and options 12) ts
unfolding show_ts ts_to_timeval ts_to_timespec show_clock
show_ts_lem lc options ts =
    pick_lem (bit_and options 12) _ _ _ ∙ rw (bit_and-low 34 (ts / 2 ^ 30), bit_and-low 30 ts) refl

row_head_lem :
    (lc : Libc) (g : Globals) (options id ts tid : ℕ)
    → row_head lc g options id ts tid ≡ shown_head lc g options id ts tid
unfolding row_head
row_head_lem lc g options id ts tid = rw (show_ts_lem lc options ts) refl

pub entry_line_lem :
    (lc : Libc) (g : Globals) (options id : ℕ) (xs : List Item) (ts tid : ℕ)
    → entry_line lc g options (record { id = id; items = xs }) ts tid
      ≡ shown_line lc g options id xs ts tid
unfolding entry_line
entry_line_lem lc g options id [] ts tid = refl
entry_line_lem lc g options id (x ∷ xs) ts tid =
    rw
      (
        ==_of_ne (items_size (x ∷ xs)) 0 (λ e. omega (arith, e)),
        row_head_lem lc g options id ts tid,
        items_text_lem lc g false (x ∷ xs),
      )
      refl
