-- ===== src/Util/Rows/Recent.antt =====
-- `print_rows` shows the last rows in the order in which they were taken.
use log2mem.Prelude.{
  ℕ, zero, suc, ◌+◌, ◌-◌, ◌^◌, ◌≤◌, ◌<◌, ◌≡◌, refl, ◌∙◌, sym, ap, ◌⊎◌, inl, inr, arith, leb, some,
  if◌then◌else◌,
}
use log2mem.Prelude.{List, [], ◌++◌, u32}
use mathlib.Core.Path.{subst}
use native.Mathlib.Nat.{mod-lt, mod-eq_of_lt}
use Prim.Native.Nat.{min}
use native.Mathlib.Decide.{ℕ_discrete}
use log2mem.Memory.{Mem, load}
use log2mem.Config.{Config}
use log2mem.State.{Handle}
use log2mem.Ready.{IsSetUp}
use log2mem.Ready.Index.{IsPowerOfTwo-pos, IsPowerOfTwo-le}
use log2mem.Row.Item.{Item}
use log2mem.Row.Slot.{slot, slot_of}
use log2mem.Ring.{Entry, Log, Represents}
use log2mem.Ring.History.{IsHistory, holder}
use log2mem.Util.Run.{done}
use log2mem.Util.Format.{Libc, Globals}
use log2mem.Util.Item.Show.{AreShowable}
use log2mem.Util.Rows.{print_rows}
use log2mem.Util.Rows.Show.{lowest_of, lines_from, entry_line, slot_line, print_rows-eq-lines}

-- The lines of `count` rows from row `k` on.
unfoldable pub lines_of : (ℕ → List ℕ) → ℕ → ℕ → List ℕ
lines_of line zero k = []
lines_of line (suc count) k = line k ++ lines_of line count (k + 1)

lowest_of-ge :
    (b count i lowest : ℕ) (f : ℕ → Entry)
    → ((j : ℕ) → i ≤ j → j < i + count → b ≤ (f j).id)
    → b ≤ lowest
    → b ≤ lowest_of count i lowest f
unfolding lowest_of
lowest_of-ge b zero i lowest f all h = h
lowest_of-ge b (suc count) i lowest f all h =
    lowest_of-ge b count (i + 1) _ f (λ j p q. all j (omega arith) (omega arith))
      (ground (arith, all i (omega arith) (omega arith)))

ltb-cases : (a b : ℕ) → (a < b) ⊎ (b ≤ a)
ltb-cases a b = omega arith

lowest_of-le_lowest : (count i lowest : ℕ) (f : ℕ → Entry) → lowest_of count i lowest f ≤ lowest
unfolding lowest_of
lowest_of-le_lowest zero i lowest f = omega arith
lowest_of-le_lowest (suc count) i lowest f =
    ground (
      arith,
      lowest_of-le_lowest count (i + 1) (if leb (f i).id lowest then (f i).id else lowest) f,
    )

if-le : (a b : ℕ) → (if leb a b then a else b) ≤ a
if-le a b = ground arith

lowest_of-le :
    (count i lowest : ℕ) (f : ℕ → Entry) (j : ℕ)
    → i ≤ j
    → j < i + count
    → lowest_of count i lowest f ≤ (f j).id
unfolding lowest_of
lowest_of-le zero i lowest f j p q = absurd (omega arith)
lowest_of-le (suc count) i lowest f j p q = elim (ℕ_discrete i j) [
  | yes e ↦ omega (
    arith,
    lowest_of-le_lowest count (i + 1) (if leb (f i).id lowest then (f i).id else lowest) f,
    ap (λ (t : ℕ). (f t).id) e,
    if-le (f i).id lowest,
  )
  | no d ↦ lowest_of-le count (i + 1) _ f j (omega arith) (omega arith)
]

module _ {c : Config} {n : ℕ} {hist : ℕ → List Item} {l : Log} (r : IsHistory c n hist l)
    (pos : 0 < c.num_rows) where
  -- What a slot below the number of rows holds.
  slot_cases :
      (i : ℕ)
      → i < c.num_rows
      → ((k : ℕ) × (k < n) × (n ≤ k + c.num_rows) × (l.entry i ≡ record { id = k; items = hist k }))
        ⊎ (n ≤ i) × (l.entry i ≡ record { id = 0; items = [] })
  slot_cases i lt = elim (ltb-cases i n) [
    | inl taken ↦
        let held = holder c.num_rows lt taken in
        inl (
          held.0,
          held.1,
          held.2,
          subst (λ t. l.entry t ≡ record { id = held.0; items = hist held.0 }) held.3
              (r.kept held.0 held.1 held.2),
        )
    | inr free ↦ inr (free, r.untouched i free)
  ]

  lowest_of-IsHistory : n < 2 ^ 32 → lowest_of c.num_rows 0 0xFFFFFFFF l.entry ≡ n - c.num_rows
  lowest_of-IsHistory word = omega (arith, above, below)
    where
      above : n - c.num_rows ≤ lowest_of c.num_rows 0 0xFFFFFFFF l.entry
      above =
          lowest_of-ge (n - c.num_rows) c.num_rows 0 0xFFFFFFFF l.entry
            (λ j p q. elim (slot_cases j (omega arith)) [
              | inl (k, lt, near, e) ↦ omega (arith, ap (λ t. t.id) e)
              | inr (free, e) ↦ omega (arith, ap (λ t. t.id) e)
            ])
            (omega arith)

      least : (i : ℕ) → i < c.num_rows → lowest_of c.num_rows 0 0xFFFFFFFF l.entry ≤ (l.entry i).id
      least i lt = lowest_of-le c.num_rows 0 0xFFFFFFFF l.entry i (omega arith) (omega arith)

      below : lowest_of c.num_rows 0 0xFFFFFFFF l.entry ≤ n - c.num_rows
      below = elim (ltb-cases 0 n) [
        | inl some_row ↦
            let k : ℕ = n - c.num_rows in
            omega (
              arith,
              least (slot_of c k) (mod-lt k pos),
              ap (λ t. t.id) (r.kept k (omega arith) (omega arith)),
            )
        | inr no_row ↦ omega (arith, least 0 pos, ap (λ t. t.id) (r.untouched 0 (omega arith)))
      ]

  showable_slots :
      ((k : ℕ) → k < n → AreShowable (hist k))
      → (i : ℕ) → i < c.num_rows
      → AreShowable (l.entry i).items
  showable_slots ok i lt = elim (slot_cases i lt) [
    | inl (k, below, near, e) ↦ subst (λ t. AreShowable t.items) (sym e) (ok k below)
    | inr (free, e) ↦ subst (λ t. AreShowable t.items) (sym e) tt
  ]

module _ {c : Config} {h : Handle} (u : IsSetUp c h) {m : Mem} {l : Log} (v : Represents c h m l)
    {n : ℕ} {hist : ℕ → List Item} (r : IsHistory c n hist l) (word : n < 2 ^ 32) (size : ℕ)
    (inside : h.counter_labels ≤ size) (small : size < 2 ^ 31) (lc : Libc) (g : Globals) where
  -- The line of row `k`, with the time and the thread that the map has in its slot.
  abbrev pub row_line : ℕ → List ℕ
  row_line k =
      entry_line lc g c.options (record { id = k; items = hist k })
        (load 8 (slot c h (slot_of c k) + 8) m) (load 4 (slot c h (slot_of c k)) m)

  abbrev line_at : ℕ → List ℕ
  line_at = slot_line u v size inside small lc g

  empty_lines :
      (more k : ℕ) → n ≤ k → (more ≡ 0) ⊎ (k + more ≤ c.num_rows) → lines_from c line_at more k ≡ []
  unfolding lines_from entry_line
  empty_lines zero k p q = refl
  empty_lines (suc more) k p q =
      rw
        (
          mod-eq_of_lt {n = k} {m = c.num_rows} (omega arith),
          r.untouched k p,
          step,
          empty_lines more (k + 1) (omega arith) (omega arith),
        )
        refl
    where
      step : u32 (k + 1) ≡ k + 1
      step = omega (arith, IsPowerOfTwo-le u.rounded.rows)

  kept_lines :
      (total count k : ℕ)
      → n ≡ k + count
      → count ≤ total
      → n ≤ k + c.num_rows
      → (total ≡ count) ⊎ (k + total ≤ c.num_rows)
      → lines_from c line_at total k ≡ lines_of row_line count k
  unfolding lines_from lines_of
  kept_lines total zero k e few near q = empty_lines total k (omega arith) (omega arith)
  kept_lines zero (suc count) k e few near q = absurd (omega arith)
  kept_lines (suc total) (suc count) k e few near q =
      rw
        (
          r.kept k (omega arith) near,
          step,
          kept_lines total count (k + 1) (omega arith) (omega arith) (omega arith) (omega arith),
        )
        refl
    where
      step : u32 (k + 1) ≡ k + 1
      step = omega arith

  pub print_rows-eq-recent :
      (fuel : ℕ)
      → c.row_len < fuel
      → ((k : ℕ) → k < n → AreShowable (hist k))
      → print_rows lc g size fuel (some h) m
        ≡ done (lines_of row_line (min n c.num_rows) (n - c.num_rows))
  print_rows-eq-recent fuel enough ok =
      print_rows-eq-lines u v size inside small lc g fuel enough (showable_slots r pos ok)
      ∙ ap done (
          ap (lines_from c line_at c.num_rows) (lowest_of-IsHistory r pos (omega arith))
          ∙ kept_lines c.num_rows (min n c.num_rows) (n - c.num_rows) (omega arith) (omega arith)
              (omega arith) (omega arith))
    where
      pos : 0 < c.num_rows
      pos = IsPowerOfTwo-pos u.rounded.rows
