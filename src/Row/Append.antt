-- ===== src/Row/Append.antt =====
-- A push to a row of a ready process, with all that later steps rely on.
use log2mem.Prelude.{
  ℕ, ◌+◌, ◌^◌, ◌≤◌, ◌<◌, ◌≡◌, refl, ◌∙◌, ap, inl, arith, some, List, [], ◌∷◌, ◌++◌, length,
  length-append, take,
}
use mathlib.Core.Path.{subst}
use log2mem.Memory.{Mem, load}
use log2mem.Memory.Frame.{Frame}
use log2mem.Config.{Config}
use log2mem.Ready.{HasConfig}
use log2mem.Ready.Index.{row_len_at, HasConfig-Frame}
use log2mem.Row.{c_string, push, push_str}
use log2mem.Row.Item.{Item, IsRow, append_item, append_item-le, items_size}
use log2mem.Row.Push.{push-IsRow, push-Frame, push_str-eq-push}

-- The row at `r` holds the items, within its payload, and the map has the configuration.
pub record IsRowOf (c : Config) (r : ℕ) (is : List Item) (m : Mem) : Type 0 where
  pub config : HasConfig c m
  pub is_row : IsRow m r is
  pub room : items_size is ≤ c.row_len

module _ {c : Config} {r : ℕ} {is : List Item} {m : Mem} (v : IsRowOf c r is m) (far : 52 ≤ r)
    (small : c.row_len < 2 ^ 31) (i : Item) (kind : i.kind < 256)
    (short : length i.bytes + 8 < 2 ^ 31) where
  pub push-IsRowOf : IsRowOf c r (append_item c.row_len is i) (push r i.kind i.bytes m)
  push-IsRowOf = record {
    config = HasConfig-Frame (inl (omega arith)) frame v.config;
    is_row =
        subst (λ t. IsRow (push r i.kind i.bytes m) r (append_item t is i)) (row_len_at v.config)
          (push-IsRow r is m small' room' v.is_row i.kind i.bytes short kind);
    room = append_item-le c.row_len is i v.room;
  }
    where
      small' : load 4 44 m < 2 ^ 31
      small' = omega (arith, row_len_at v.config)

      room' : items_size is ≤ load 4 44 m
      room' = omega (arith, row_len_at v.config, v.room)

      frame : Frame (r + 20) (r + 24 + load 4 44 m) m (push r i.kind i.bytes m)
      frame = push-Frame r is m small' room' v.is_row i.kind i.bytes short

  pub push-Frame_row : Frame (r + 20) (r + 24 + c.row_len) m (push r i.kind i.bytes m)
  push-Frame_row =
      subst (λ t. Frame (r + 20) (r + 24 + t) m (push r i.kind i.bytes m)) (row_len_at v.config)
        (push-Frame r is m (omega (arith, row_len_at v.config))
          (omega (arith, row_len_at v.config, v.room)) v.is_row i.kind i.bytes short)

take-c_string : (s : List ℕ) → take (length s) (c_string s) ≡ s
take-c_string [] = refl
take-c_string (x ∷ s) = ap (◌∷◌ x) (take-c_string s)

-- Of a C string all bytes and the NUL are pushed.
pub push-c_string :
    (r k : ℕ) (s : List ℕ) (m : Mem)
    → length s + 9 < 2 ^ 31
    → push_str r k (length s) (c_string s) m ≡ some (push r k (c_string s) m)
push-c_string r k s m h =
    push_str-eq-push r k (length s) (c_string s) m (omega (arith, length-append s (0 ∷ []))) h
    ∙ ap (λ t. some (push r k (t ++ 0 ∷ []) m)) (take-c_string s)
