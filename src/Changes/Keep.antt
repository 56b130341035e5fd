-- ===== src/Changes/Keep.antt =====
-- What writes to the rows, to the counters and to the variables keep of the other sections.
use log2mem.Prelude.{ℕ, ◌+◌, ◌*◌, ◌≤◌, ◌∙◌, ◌⊎◌, inl, inr, arith}
use log2mem.Memory.{Mem}
use log2mem.Memory.Frame.{Frame, load-Frame}
use log2mem.Config.{Config}
use log2mem.State.{Handle}
use log2mem.Ready.{IsSetUp, IsMapped}
use log2mem.Ready.Index.{HasConfig-Frame}
use log2mem.Changes.{Changes, Changes-keep, InRows, InCounters, InArray}
use log2mem.Element.Index.{cells-le}
use log2mem.Row.Slot.{slot_bounds}
use log2mem.Ring.{Log, Represents}
use log2mem.Ring.Refine.{IsEntry-Frame}
use log2mem.Counter.Bank.{Bank, HasBank}
use log2mem.Counter.Refine.{IsCell-Frame, counter-Bounds}
use log2mem.Var.{Kind, double_var, int_var, base, size}
use log2mem.Var.Cell.{Vars, HasVars, array_bounds, cell}
use log2mem.Var.Write.{IsVar-Frame}

-- Where the variables of a kind end.
abbrev pub array_end : Kind → Config → Handle → ℕ
array_end k c h = base k h + c.num_vars * size k

module _ {c : Config} {h : Handle} (u : IsSetUp c h) where
  abbrev v : IsMapped c h
  v = u.is_mapped

  log_keep :
      (l : Log) (lo hi : ℕ) (m m' : Mem)
      → ((256 ≤ lo) × (hi ≤ h.rows)) ⊎ (h.counter_labels ≤ lo)
      → Frame lo hi m m'
      → Represents c h m l
      → Represents c h m' l
  log_keep l lo hi m m' p f r = record {
    config =
        HasConfig-Frame (inl (omega (arith, v.counters_at, v.rows_at, v.labels_after))) f r.config;
    next =
        load-Frame 4 28 {lo = lo} {hi = hi}
          (inl (omega (arith, v.counters_at, v.rows_at, v.labels_after))) f
        ∙ r.next;
    entries = λ i q.
        IsEntry-Frame {lo = lo} {hi = hi} i (l.entry i)
          (omega (arith, p, v.rows_at, slot_bounds i v q)) f (r.entries i q);
  }

  bank_keep :
      (b : Bank) (lo hi : ℕ) (m m' : Mem)
      → InRows h lo hi ⊎ (h.double_vars ≤ lo)
      → Frame lo hi m m'
      → HasBank c h m b
      → HasBank c h m' b
  bank_keep b lo hi m m' p f r = record {
    config = HasConfig-Frame (omega (arith, p, v.rows_at, v.labels_after, v.doubles_at)) f r.config;
    cells = λ i q.
        IsCell-Frame {lo = lo} {hi = hi} i (b i) (omega (arith, p, counter-Bounds u i q))
          (omega (arith, p, counter-Bounds u i q)) f (r.cells i q);
  }

  vars_keep :
      (k : Kind) (vs : Vars) (lo hi : ℕ) (m m' : Mem)
      → ((52 ≤ lo) ⊎ (hi ≤ 32))
      → (hi ≤ base k h) ⊎ (array_end k c h ≤ lo)
      → Frame lo hi m m'
      → HasVars k c h m vs
      → HasVars k c h m' vs
  vars_keep k vs lo hi m m' p q f r = record {
    config = HasConfig-Frame p f r.config;
    vars = λ i z.
        IsVar-Frame k (cell k h i) {lo = lo} {hi = hi} (vs i)
          (omega (arith, q, cells-le i c.num_vars (size k) z)) f (r.vars i z);
  }

  -- The variables lie behind the labels.
  behind_labels : (k : Kind) → h.double_vars ≤ base k h
  unfolding base
  behind_labels double_var = omega arith
  behind_labels int_var = omega (arith, v.ints_at)

  pub counters_keep-log :
      {m m' : Mem} {l : Log}
      → Changes (InCounters h) m m'
      → Represents c h m l
      → Represents c h m' l
  counters_keep-log {l = l} =
      Changes-keep
        (λ lo hi m m' p. log_keep l lo hi m m' (omega (arith, p, v.counters_at, v.rows_at)))

  pub counters_keep-vars :
      {m m' : Mem} (k : Kind) {vs : Vars}
      → Changes (InCounters h) m m'
      → HasVars k c h m vs
      → HasVars k c h m' vs
  counters_keep-vars k {vs} = Changes-keep (λ lo hi m m' p.
      vars_keep k vs lo hi m m' (omega (arith, p, v.counters_at, v.rows_at, v.labels_after))
        (omega (arith, p, v.labels_after, v.doubles_at, behind_labels k)))

  pub rows_keep-bank :
      {m m' : Mem} {b : Bank} → Changes (InRows h) m m' → HasBank c h m b → HasBank c h m' b
  rows_keep-bank {b = b} = Changes-keep (λ lo hi m m' p. bank_keep b lo hi m m' (inl p))

  pub rows_keep-vars :
      {m m' : Mem} (k : Kind) {vs : Vars}
      → Changes (InRows h) m m'
      → HasVars k c h m vs
      → HasVars k c h m' vs
  rows_keep-vars k {vs} = Changes-keep (λ lo hi m m' p.
      vars_keep k vs lo hi m m' (omega (arith, p, v.rows_at))
        (omega (arith, p, array_bounds k v, v.doubles_at, behind_labels k)))

  pub vars_keep-log :
      {m m' : Mem} (k : Kind) {l : Log}
      → Changes (InArray (base k h) (array_end k c h)) m m'
      → Represents c h m l
      → Represents c h m' l
  vars_keep-log k {l} = Changes-keep (λ lo hi m m' p.
      log_keep l lo hi m m' (inr (omega (arith, p, v.doubles_at, behind_labels k))))

  pub vars_keep-bank :
      {m m' : Mem} (k : Kind) {b : Bank}
      → Changes (InArray (base k h) (array_end k c h)) m m'
      → HasBank c h m b
      → HasBank c h m' b
  vars_keep-bank k {b} =
      Changes-keep
        (λ lo hi m m' p. bank_keep b lo hi m m' (inr (omega (arith, p, behind_labels k))))

  -- The arrays of the two kinds do not overlap.
  pub vars_keep-ints :
      {m m' : Mem} {vs : Vars}
      → Changes (InArray (base double_var h) (array_end double_var c h)) m m'
      → HasVars int_var c h m vs
      → HasVars int_var c h m' vs
  unfolding base size
  vars_keep-ints {vs = vs} = Changes-keep (λ lo hi m m' p.
      vars_keep int_var vs lo hi m m' (inl (omega (arith, p, array_bounds double_var v)))
        (inl (omega (arith, p, v.ints_at))))

  pub vars_keep-doubles :
      {m m' : Mem} {vs : Vars}
      → Changes (InArray (base int_var h) (array_end int_var c h)) m m'
      → HasVars double_var c h m vs
      → HasVars double_var c h m' vs
  unfolding base size
  vars_keep-doubles {vs = vs} = Changes-keep (λ lo hi m m' p.
      vars_keep double_var vs lo hi m m' (inl (omega (arith, p, array_bounds int_var v)))
        (inr (omega (arith, p, v.ints_at))))
