-- ===== src/Threads/Safety.antt =====
-- What several threads can rely on, in whatever order they step.
use log2mem.Prelude.{ℕ, ◌≤◌, ◌≡◌, ◌≢◌, ◌⊎◌, inl, inr, refl, Option, none, some, List, [], ◌∷◌}
use log2mem.Prelude.{length, arith}
use log2mem.State.{Handle, State}
use native.Mathlib.Decide.{ℕ_discrete}
use log2mem.Threads.{
  Pc, Event, System, Reach, critical, handles, ids, count_down, creating, InitArgs, spinning,
}
use log2mem.Threads.Invariant.{Inv, Reach-Inv}

-- In every reachable state at most one thread is between its `log2mem_atomic_spinlock` and its
-- `log2mem_atomic_spinunlock`: while one is, no other is.
pub mutual_exclusion :
    {es : List Event} {s : System}
    → Reach es s
    → (i j : ℕ) → i ≢ j
    → critical (s.pc i) ≡ 1
    → critical (s.pc j) ≡ 0
mutual_exclusion r i j d p = ground (arith, (Reach-Inv r).unique i j p)

few_handles :
    {es : List Event} {s : State} {pc : ℕ → Pc}
    → Inv es s pc
    → (o : Option Handle) → s.handle ≡ o
    → length (handles es) ≤ 1
few_handles inv (some h) p = ground (arith, inv.made_once h p)
few_handles {s = s} inv none p = elim (ℕ_discrete s.lock 0) [
  | yes z ↦ ground (arith, inv.unmade z p)
  | no z ↦ let (j, q) = inv.held z in ground (arith, inv.fresh j)
]

-- Whatever the order of the steps, the threads of a process make at most one map; the handle, once
-- it is set, is that map's; and while a thread is about to make the map there is none yet.
pub made_once :
    {es : List Event} {s : System}
    → Reach es s
    → (length (handles es) ≤ 1)
      × ((h : Handle) → s.shared.handle ≡ some h → handles es ≡ h ∷ [])
      × ((i : ℕ) (c : InitArgs) → s.pc i ≡ creating c → handles es ≡ [])
made_once {es} {s} r =
    let inv = Reach-Inv r in
    (few_handles inv s.shared.handle refl, inv.made_once, λ i c p. ground (arith, inv.fresh i))

-- Whatever the order of the steps, the ids of the rows that the threads of a process take are 0, 1,
-- 2 and so on modulo 2^32: each new one is one more than the last, and none is left out.
pub ids-count_down :
    {es : List Event} {s : System} → Reach es s → ids es ≡ count_down (length (ids es))
ids-count_down r = (Reach-Inv r).counted

-- The lock is never held by nobody: while a thread spins, the lock is free, so that its next try
-- succeeds, or another thread is in the critical section.
pub no_deadlock :
    {es : List Event} {s : System}
    → Reach es s
    → (i : ℕ) (c : InitArgs) → s.pc i ≡ spinning c
    → (s.shared.lock ≡ 0) ⊎ ((j : ℕ) × (j ≢ i) × (critical (s.pc j) ≡ 1))
no_deadlock {s = s} r i c p = elim (ℕ_discrete s.shared.lock 0) [
  | yes z ↦ inl z
  | no z ↦ let (j, q) = (Reach-Inv r).held z in inr (j, (λ e. ground (arith, e, p, q)), q)
]
