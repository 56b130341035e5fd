-- ===== src/Counter/Refine.antt =====
-- The operations on the counters of a ready process do what `bank_add` and `bank_label` say.
use log2mem.Prelude.{ℕ, ◌+◌, ◌*◌, ◌^◌, ◌≤◌, ◌<◌, ◌≡◌, ◌∙◌, ◌⊎◌, inl, inr, arith}
use log2mem.Prelude.{List, u32}
use mathlib.Core.Path.{subst}
use native.Mathlib.Decide.{ℕ_discrete}
use log2mem.Memory.{Mem, store}
use log2mem.Memory.Frame.{Frame, load-Frame, read_bytes-Frame, store-Frame, load-store}
use log2mem.Config.{Config}
use log2mem.State.{Handle, State, Os, returned}
use log2mem.Ready.{IsReady, IsSetUp, HasConfig}
use log2mem.Memory.{load}
use log2mem.Ready.Index.{num_counters_at, HasConfig-Frame}
use log2mem.Ready.Prepared.{with_element_some, with_handle_set}
use log2mem.Element.{strncpy}
use log2mem.Element.Index.{
  element-masked, masked-lt, cells-le, cells_apart, strncpy-Frame, read_bytes-strncpy,
}
use log2mem.Counter.{
  counter_address, label_address, add_to_counter, set_label, counter_add, counter_label,
}
use log2mem.Counter.Bank.{
  Cell, Bank, set_cell, index, bank_add, bank_label, counter_cell, label_cell, IsCell, HasBank,
  set_cell_self, set_cell_ne,
}

-- A write outside a counter and its label leaves them.
pub IsCell-Frame :
    {h : Handle} {lo hi : ℕ} {m m' : Mem} (i : ℕ) (x : Cell)
    → (counter_cell h i + 8 ≤ lo) ⊎ (hi ≤ counter_cell h i)
    → (label_cell h i + 64 ≤ lo) ⊎ (hi ≤ label_cell h i)
    → Frame lo hi m m'
    → IsCell h m i x
    → IsCell h m' i x
IsCell-Frame {h} {lo = lo} {hi = hi} i x p q f v = record {
  value = load-Frame 4 (counter_cell h i) {lo = lo} {hi = hi} (omega arith) f ∙ v.value;
  used = load-Frame 4 (counter_cell h i + 4) {lo = lo} {hi = hi} (omega arith) f ∙ v.used;
  label = read_bytes-Frame 63 (label_cell h i) {lo = lo} {hi = hi} (omega arith) f ∙ v.label;
  terminated = f (label_cell h i + 63) (omega arith) ∙ v.terminated;
}

set_cell-HasBank :
    {c : Config} {h : Handle} {m' : Mem} {b : Bank} (i : ℕ) (x : Cell)
    → HasConfig c m'
    → IsCell h m' i x
    → ((j : ℕ) → j < c.num_counters → (i ≡ j → ⊥) → IsCell h m' j (b j))
    → HasBank c h m' (set_cell i x b)
set_cell-HasBank {h = h} {m' = m'} {b = b} i x e own others = record {
  config = e;
  cells = λ j p. elim (ℕ_discrete i j) [
    | yes s ↦ subst (λ t. IsCell h m' t (set_cell i x b t)) s (rw (set_cell_self i x b) own)
    | no d ↦ rw (set_cell_ne i j x b d) (others j p d)
  ];
}

module _ {c : Config} {h : Handle} (u : IsSetUp c h) where
  -- The counters start behind the header, and the labels of all lie behind them.
  abbrev pub Bounds : ℕ → Type 0
  Bounds i =
      (256 ≤ counter_cell h i)
      × (counter_cell h i + 8 ≤ h.rows)
      × (h.rows ≤ h.counter_labels)
      × (label_cell h i + 64 ≤ h.double_vars)
      × (h.double_vars < 2 ^ 31)
      × (h.counters ≡ 256)
      × (256 + c.num_counters * 8 ≡ h.rows)
      × (h.double_vars ≡ h.counter_labels + c.num_counters * 64)

  pub counter-Bounds : (i : ℕ) → i < c.num_counters → Bounds i
  counter-Bounds i lt = omega (
    arith,
    cells-le i c.num_counters 8 lt,
    cells-le i c.num_counters 64 lt,
    u.is_mapped.counters_at,
    u.is_mapped.rows_at,
    u.is_mapped.labels_after,
    u.is_mapped.doubles_at,
    u.is_mapped.ints_at,
    u.is_mapped.ints_end,
  )

  pub index-lt : (id : ℕ) → index c id < c.num_counters
  index-lt id = masked-lt id u.rounded.counters

  pub counter_address_lem :
      {m : Mem} (id : ℕ) → HasConfig c m → counter_address id h m ≡ counter_cell h (index c id)
  unfolding counter_address
  counter_address_lem id e = rw (num_counters_at e) (
      element-masked h.counters 8 id u.rounded.counters (omega arith)
        (omega (arith, counter-Bounds (index c id) (index-lt id))))

  pub label_address_lem :
      {m : Mem} (id : ℕ) → HasConfig c m → label_address id h m ≡ label_cell h (index c id)
  unfolding label_address
  label_address_lem id e = rw (num_counters_at e) (
      element-masked h.counter_labels 64 id u.rounded.counters (omega arith)
        (omega (arith, counter-Bounds (index c id) (index-lt id))))

  pub add-HasBank :
      {m : Mem} {b : Bank} (id v : ℕ)
      → HasBank c h m b
      → HasBank c h (add_to_counter id v h m) (bank_add c id v b)
  unfolding add_to_counter bank_add
  add-HasBank {m} {b} id v r =
      let i = index c id in
      let own = r.cells i (index-lt id) in
      let frame = store-Frame 4 (counter_cell h i) (u32 ((b i).value + v)) m in
      rw (counter_address_lem id r.config, own.value)
        (set_cell-HasBank i _
          (HasConfig-Frame (inl (omega (arith, counter-Bounds i (index-lt id)))) frame r.config)
          (record {
            value = load-store 4 (counter_cell h i) (u32 ((b i).value + v)) m (omega arith);
            used = load-Frame 4 (counter_cell h i + 4) (inr (omega arith)) frame ∙ own.used;
            label =
                read_bytes-Frame 63 (label_cell h i)
                  (inr (omega (arith, counter-Bounds i (index-lt id)))) frame
                ∙ own.label;
            terminated =
                frame (label_cell h i + 63) (inr (omega (arith, counter-Bounds i (index-lt id))))
                ∙ own.terminated;
          })
          (λ j p d.
            IsCell-Frame j (b j) (omega (arith, cells_apart h.counters 8 i j d))
              (inr (omega (arith, counter-Bounds i (index-lt id), counter-Bounds j p))) frame
              (r.cells j p)))

  pub label-HasBank :
      {m : Mem} {b : Bank} (id : ℕ) (src : List ℕ)
      → HasBank c h m b
      → HasBank c h (set_label id src h m) (bank_label c id src b)
  unfolding set_label bank_label
  label-HasBank {m} {b} id src r =
      rw (counter_address_lem id r.config, label_address_lem id r.config)
        (set_cell-HasBank i _
          (HasConfig-Frame (inl (omega (arith, here))) marked
            (HasConfig-Frame (inl (omega (arith, here))) copied r.config))
          (record {
            value =
                load-Frame 4 (counter_cell h i) (inl (omega arith)) marked
                ∙ load-Frame 4 (counter_cell h i) (inl (omega (arith, here))) copied
                ∙ own.value;
            used = load-store 4 (counter_cell h i + 4) 1 m1 (omega arith);
            label =
                read_bytes-Frame 63 (label_cell h i) (inr (omega (arith, here))) marked
                ∙ read_bytes-strncpy (label_cell h i) 63 src m;
            terminated =
                marked (label_cell h i + 63) (inr (omega (arith, here)))
                ∙ copied (label_cell h i + 63) (inr (omega arith))
                ∙ own.terminated;
          })
          (λ j p d.
            IsCell-Frame j (b j) (omega (arith, cells_apart h.counters 8 i j d))
              (inr (omega (arith, here, counter-Bounds j p))) marked
              (IsCell-Frame j (b j) (inl (omega (arith, here, counter-Bounds j p)))
                (omega (arith, cells_apart h.counter_labels 64 i j d)) copied (r.cells j p))))
    where
      i : ℕ
      i = index c id

      own : IsCell h m i (b i)
      own = r.cells i (index-lt id)

      m1 : Mem
      m1 = strncpy (label_cell h i) 63 src m

      copied : Frame (label_cell h i) (label_cell h i + 63) m m1
      copied = strncpy-Frame (label_cell h i) 63 src m

      marked :
          Frame
            (counter_cell h i + 4)
            (counter_cell h i + 4 + 4)
            m1
            (store 4 (counter_cell h i + 4) 1 m1)
      marked = store-Frame 4 (counter_cell h i + 4) 1 m1

      here : Bounds i
      here = counter-Bounds i (index-lt id)

-- `log2mem_counter_add` on a ready process returns, adds to the value of the counter of the id and
-- changes no other value, mark or label.
pub counter_add-HasBank :
    (os : Os) {c : Config} {h : Handle} {s : State} {b : Bank} (id v : ℕ)
    → IsReady c h s
    → HasBank c h s.mem b
    → (s' : State) × (counter_add os id v s ≡ returned tt s')
      × IsReady c h s'
      × HasBank c h s'.mem (bank_add c id v b)
unfolding counter_add
counter_add-HasBank os {c} {h} {s} {b} id v r e =
    let after = add-HasBank r.set_up id v e in
    (
      record s { mem = add_to_counter id v h s.mem },
      with_handle_set os tt _ s r.has_handle
          ∙ with_element_some (load 4 36 s.mem) _ (num_counters_at r.config)
              r.set_up.rounded.counters,
      record { has_handle = r.has_handle; config = after.config; set_up = r.set_up },
      after,
    )

-- `log2mem_counter_label` on a ready process returns, sets the label of the counter of the id to the
-- first 63 bytes of the text, padded with NULs, marks the counter as used and changes nothing else
-- of the counters; the label still ends with a NUL.
pub counter_label-HasBank :
    (os : Os) {c : Config} {h : Handle} {s : State} {b : Bank} (id : ℕ) (src : List ℕ)
    → IsReady c h s
    → HasBank c h s.mem b
    → (s' : State) × (counter_label os id src s ≡ returned tt s')
      × IsReady c h s'
      × HasBank c h s'.mem (bank_label c id src b)
unfolding counter_label
counter_label-HasBank os {c} {h} {s} {b} id src r e =
    let after = label-HasBank r.set_up id src e in
    (
      record s { mem = set_label id src h s.mem },
      with_handle_set os tt _ s r.has_handle
          ∙ with_element_some (load 4 36 s.mem) _ (num_counters_at r.config)
              r.set_up.rounded.counters,
      record { has_handle = r.has_handle; config = after.config; set_up = r.set_up },
      after,
    )
