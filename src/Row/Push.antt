-- ===== src/Row/Push.antt =====
-- `__log2mem_push` and `__log2mem_push_str` append an item to their row, or leave it as it is.
use log2mem.Prelude.{ℕ, ◌+◌, ◌^◌, ◌≤◌, ◌<◌, ◌≡◌, refl, ◌∙◌, ap, sym, inl, inr, arith}
use log2mem.Prelude.{
  List, [], ◌∷◌, ◌++◌, length, length-append, length-take, ltb, false, leb, take, some, Bool-cases,
  leb_int, sub32,
}
use log2mem.Prelude.{u32, leb_of_le, leb_of_lt, sext}
use native.Mathlib.Decide.{dec_le}
use log2mem.Memory.{Mem, load, store, write_bytes, le_bytes}
use log2mem.Memory.Frame.{Frame, Frame-widen, load-Frame, store-Frame, write_bytes-Frame}
use log2mem.Memory.Frame.{
  load-store, load-store_ne, read_bytes-write_bytes, write_bytes-append, store-eq-write_bytes,
}
use log2mem.Row.{push, push_str, put_hdr, config_row_len}
use log2mem.Row.Item.{Item, IsRow, Holds, items_size, item_size, append_item, items_size-append}
use log2mem.Row.Item.{Holds-Frame, Holds-append}

pub put_hdr-Frame : (p k n : ℕ) (m : Mem) → Frame p (p + 8) m (put_hdr p k n m)
unfolding put_hdr
put_hdr-Frame p k n m b h =
    store-Frame 4 (p + 4) _ _ b (omega arith) ∙ store-Frame 1 p k m b (omega arith)

-- A header and the bytes behind it are an item.
pub put_item :
    (p k : ℕ) (bytes : List ℕ) (m : Mem)
    → k < 256
    → length bytes + 8 < 2 ^ 31
    → Holds
        (write_bytes (p + 8) bytes (put_hdr p k (length bytes) m))
        p
        (record { kind = k; bytes = bytes } ∷ [])
unfolding put_hdr
put_item p k bytes m hk hn = (
  load-Frame 1 p (inl (omega arith)) (write_bytes-Frame (p + 8) bytes _)
      ∙ load-store_ne 1 p 4 (p + 4) _ _ (inl (omega arith))
      ∙ load-store 1 p k m (omega arith),
  load-Frame 4 (p + 4) (inl (omega arith)) (write_bytes-Frame (p + 8) bytes _)
      ∙ load-store 4 (p + 4) _ _ (omega arith)
      ∙ ground arith,
  read_bytes-write_bytes (p + 8) bytes _,
  tt,
)

-- The writes of a push that fits, at the end `p` of a payload of `d` bytes.
abbrev with_item : ℕ → ℕ → ℕ → List ℕ → Mem → Mem
with_item r d k bytes m =
    write_bytes (r + 24 + d + 8) bytes (put_hdr (r + 24 + d) k (length bytes) m)

abbrev pushed : ℕ → ℕ → ℕ → List ℕ → Mem → Mem
pushed r d k bytes m = store 4 (r + 20) (d + 8 + length bytes) (with_item r d k bytes m)

pushed-Frame :
    (r d k : ℕ) (bytes : List ℕ) (m : Mem)
    → Frame (r + 20) (r + 24 + d + 8 + length bytes) m (pushed r d k bytes m)
pushed-Frame r d k bytes m b h =
    store-Frame 4 (r + 20) _ _ b (omega arith)
    ∙ write_bytes-Frame (r + 24 + d + 8) bytes _ b (omega arith)
    ∙ put_hdr-Frame (r + 24 + d) k (length bytes) m b (omega arith)

pushed-IsRow :
    (r : ℕ) (is : List Item) (k : ℕ) (bytes : List ℕ) (m : Mem)
    → k < 256
    → items_size is + 8 + length bytes < 2 ^ 31
    → IsRow m r is
    → IsRow (pushed r (items_size is) k bytes m) r (is ++ record { kind = k; bytes = bytes } ∷ [])
pushed-IsRow r is k bytes m hk hn row = record {
  datalen =
      load-store 4 (r + 20) _ _ (omega arith)
      ∙ omega (arith, items_size-append is (record { kind = k; bytes = bytes } ∷ []));
  payload =
      Holds-Frame (is ++ record { kind = k; bytes = bytes } ∷ []) (r + 24) (inr (omega arith))
        (store-Frame 4 (r + 20) (d + 8 + length bytes) _)
        (Holds-append is (record { kind = k; bytes = bytes }) _ (r + 24) (r + 24 + d) refl
          (Holds-Frame is (r + 24) {lo = r + 24 + d} {hi = r + 24 + d + 8 + length bytes}
            (inl (omega arith)) inner row.payload)
          (put_item (r + 24 + d) k bytes m hk (omega arith)));
}
  where
    d : ℕ
    d = items_size is

    inner : Frame (r + 24 + d) (r + 24 + d + 8 + length bytes) m (with_item r d k bytes m)
    inner b h =
        write_bytes-Frame (r + 24 + d + 8) bytes _ b (omega arith)
        ∙ put_hdr-Frame (r + 24 + d) k (length bytes) m b (omega arith)

leb_int_of_small : (a b : ℕ) → a < 2 ^ 31 → b < 2 ^ 31 → leb_int a b ≡ leb a b
leb_int_of_small a b ha hb = ground arith

-- The test of the code, `totlen <= remain`, in plain numbers.
room_test :
    (row_len d n : ℕ)
    → row_len < 2 ^ 31
    → d ≤ row_len
    → n + 8 < 2 ^ 31
    → leb_int (u32 (8 + n)) (sub32 row_len d) ≡ leb (d + (8 + n)) row_len
room_test row_len d n hl hd hn = ground arith

module _ (r : ℕ) (is : List Item) (m : Mem) (small : config_row_len m < 2 ^ 31)
    (room : items_size is ≤ config_row_len m) (row : IsRow m r is) (k : ℕ) (bytes : List ℕ)
    (small_item : length bytes + 8 < 2 ^ 31) where
  abbrev item : Item
  item = record { kind = k; bytes = bytes }

  -- The test holds exactly when the item fits.
  pub push_test :
      leb_int (u32 (8 + length bytes)) (sub32 (config_row_len m) (load 4 (r + 20) m))
      ≡ leb (items_size is + item_size item) (config_row_len m)
  push_test =
      rw row.datalen
        (room_test (config_row_len m) (items_size is) (length bytes) small room small_item)

  -- The new length that is stored.
  new_datalen :
      items_size is + item_size item < 2 ^ 31
      → u32 (load 4 (r + 20) (with_item r (items_size is) k bytes m) + u32 (8 + length bytes))
        ≡ items_size is + 8 + length bytes
  new_datalen h =
      let p = r + 24 + items_size is in
      let kept =
        load-Frame 4 (r + 20) (inl (omega arith))
          (write_bytes-Frame (p + 8) bytes (put_hdr p k (length bytes) m))
        ∙ load-Frame 4 (r + 20) (inl (omega arith)) (put_hdr-Frame p k (length bytes) m)
        ∙ row.datalen in
      omega (arith, kept)

  push_fits :
      items_size is + item_size item ≤ config_row_len m
      → push r k bytes m ≡ pushed r (items_size is) k bytes m
  unfolding push
  push_fits h =
      rw (push_test, leb_of_le _ _ h, row.datalen)
        (ap (λ t. store 4 (r + 20) t (with_item r (items_size is) k bytes m))
          (new_datalen (omega arith)))

  push_drops : config_row_len m < items_size is + item_size item → push r k bytes m ≡ m
  unfolding push
  push_drops h = rw (push_test, leb_of_lt _ _ h)

  -- A push of bytes with a tag below 256 to a row that holds some items appends the new item if
  -- the payload has room for it, and else leaves the row with the items it holds. The row's length
  -- and the item's fit an `int`, and the items fit the row.
  pub push-IsRow : k < 256 → IsRow (push r k bytes m) r (append_item (config_row_len m) is item)
  push-IsRow hk = elim (dec_le (items_size is + item_size item) (config_row_len m)) [
    | yes h ↦ rw (leb_of_le _ _ h, push_fits h) (pushed-IsRow r is k bytes m hk (omega arith) row)
    | no h ↦
        rw
          (
            leb_of_lt (items_size is + item_size item) (config_row_len m) (omega arith),
            push_drops (omega arith),
          )
          row
  ]

  -- A push to a row that holds some items writes nothing but the row's length and its payload. The
  -- row's length and the item's fit an `int`, and the items fit the row.
  pub push-Frame : Frame (r + 20) (r + 24 + config_row_len m) m (push r k bytes m)
  push-Frame = elim (dec_le (items_size is + item_size item) (config_row_len m)) [
    | yes h ↦
        rw (push_fits h)
          (Frame-widen (omega arith) (omega arith) (pushed-Frame r (items_size is) k bytes m))
    | no h ↦ rw (push_drops (omega arith)) (λ b out. refl)
  ]

-- What `memcpy` of `len` bytes and a NUL behind them write.
module _ (r k len : ℕ) (str : List ℕ) (m : Mem) (inside : len ≤ length str)
    (short : len + 9 < 2 ^ 31) where
  abbrev pub text : List ℕ
  text = take len str ++ 0 ∷ []

  pub length-text : u32 (len + 1) ≡ length text
  length-text = omega (arith, length-append (take len str) (0 ∷ []), length-take len str)

  sext-text : sext (length text) ≡ length text
  sext-text = ground (arith, length-text)

  readable : ltb (length str) (sext len) ≡ false
  readable = ground arith

  pub with_nul :
      (a : ℕ) (m' : Mem)
      → store 1 (a + len) 0 (write_bytes a (take len str) m') ≡ write_bytes a text m'
  unfolding write_bytes le_bytes
  with_nul a m' =
      store-eq-write_bytes 1 (a + len) 0 _
      ∙ ap (λ t. write_bytes t (0 ∷ []) (write_bytes a (take len str) m')) same
      ∙ sym (write_bytes-append a (take len str) (0 ∷ []) m')
    where
      same : a + len ≡ a + length (take len str)
      same = omega (arith, length-take len str)

  -- `__log2mem_push_str` of `len` bytes is the push of those bytes and a NUL. The object has `len`
  -- bytes, and `len` with the item's header fits an `int`.
  pub push_str-eq-push : push_str r k len str m ≡ some (push r k text m)
  unfolding push_str push
  push_str-eq-push =
      rw (length-text, sext-text, readable, with_nul (r + 24 + load 4 (r + 20) m + 8))
        (elim (Bool-cases
          (leb_int (u32 (8 + length text)) (sub32 (config_row_len m) (load 4 (r + 20) m)))) [
            | inl e ↦ rw e refl
            | inr e ↦ rw e refl
          ])
