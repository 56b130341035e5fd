-- ===== src/Changes.antt =====
-- Which parts of the map an operation writes, as a sequence of writes to intervals.
pub mod Keep
pub mod Write
use log2mem.Prelude.{ℕ, ◌+◌, ◌*◌, ◌≤◌, ◌⊎◌}
use log2mem.Memory.{Mem}
use log2mem.Memory.Frame.{Frame}
use log2mem.Config.{Config}
use log2mem.State.{Handle}

-- Writes one after another, each to an interval with the property `P`.
pub data Changes (P : ℕ → ℕ → Type 0) : Mem → Mem → Type 0 where
  none_left : {m : Mem} → Changes P m m
  change :
      {m m' m'' : Mem} (lo hi : ℕ) → P lo hi → Frame lo hi m m' → Changes P m' m'' → Changes P m m''

pub Changes-trans :
    {P : ℕ → ℕ → Type 0} {m m' m'' : Mem} → Changes P m m' → Changes P m' m'' → Changes P m m''
Changes-trans none_left d = d
Changes-trans (change lo hi p f c) d = change lo hi p f (Changes-trans c d)

-- What one write keeps, all of them keep.
pub Changes-keep :
    {P : ℕ → ℕ → Type 0} {X : Mem → Type 0}
    → ((lo hi : ℕ) (m m' : Mem) → P lo hi → Frame lo hi m m' → X m → X m')
    → {m m' : Mem} → Changes P m m'
    → X m
    → X m'
Changes-keep one none_left x = x
Changes-keep one (change {m} {m'} lo hi p f c) x = Changes-keep one c (one lo hi m m' p f x)

-- The counter of row ids and the rows.
abbrev pub InRows : Handle → ℕ → ℕ → Type 0
InRows h lo hi = ((28 ≤ lo) × (hi ≤ 32)) ⊎ ((h.rows ≤ lo) × (hi ≤ h.counter_labels))

-- The counters and their labels.
abbrev pub InCounters : Handle → ℕ → ℕ → Type 0
InCounters h lo hi =
    ((h.counters ≤ lo) × (hi ≤ h.rows)) ⊎ ((h.counter_labels ≤ lo) × (hi ≤ h.double_vars))

-- The variables of one kind, from `at` to `end`.
abbrev pub InArray : ℕ → ℕ → ℕ → ℕ → Type 0
InArray at end lo hi = (at ≤ lo) × (hi ≤ end)
