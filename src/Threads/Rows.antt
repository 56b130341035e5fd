-- ===== src/Threads/Rows.antt =====
-- Threads that log at the same time have taken different rows.
use log2mem.Prelude.{ℕ, ◌^◌, ◌≤◌, ◌<◌, ◌≡◌, ◌≢◌, refl, List, ◌∷◌, length, arith}
use log2mem.State.{State}
use log2mem.Threads.{Pc, logging, Event, Move, take, set_pc, System, pick, Reach, start, later, ids}
use log2mem.Threads.Invariant.{Inv, Reach-Inv, fetched}

-- The ids of the threads that log are below the number of rows taken, and each has its own.
record IsApart (es : List Event) (pc : ℕ → Pc) : Type 0 where
  below : (i a : ℕ) → pc i ≡ logging a → a < length (ids es)
  apart : (i j a : ℕ) → pc i ≡ logging a → pc j ≡ logging a → i ≡ j

module _ {es : List Event} {s : State} {pc : ℕ → Pc} (inv : Inv es s pc) (i : ℕ) where
  Move-IsApart :
      {p p' : Pc} {e : Event} {s' : State}
      → Move s e p s' p'
      → pc i ≡ p
      → (length (ids es) ≤ 2 ^ 32 → IsApart es pc)
      → length (ids (e ∷ es)) ≤ 2 ^ 32
      → IsApart (e ∷ es) (set_pc pc i p')
  unfolding ids
  Move-IsApart take q v few =
      let r = fetched inv i q in
      let w = v (omega arith) in
      record {
        below = λ j a x. ground (arith, w.below j a, r);
        apart = λ j k a x y. ground (arith, w.apart j k a, w.below j a, w.below k a, r);
      }
  Move-IsApart mv q v few =
      let w = v few in
      record {
        below = λ j a x. ground (arith, w.below j a, w.below i a, q);
        apart = λ j k a x y. ground (arith, w.apart j k a, w.apart i k a, w.apart j i a, q);
      }

Reach-IsApart :
    {es : List Event} {s : System} → Reach es s → length (ids es) ≤ 2 ^ 32 → IsApart es s.pc
Reach-IsApart (start m errno) few = record {
  below = λ j a x. ground arith;
  apart = λ j k a x y. ground arith;
}
Reach-IsApart (later r (pick i mv)) few = Move-IsApart (Reach-Inv r) i mv refl (Reach-IsApart r) few

-- Whatever the order of the steps, while at most 2^32 rows have been taken, two threads that log at
-- the same time log to rows of different ids.
pub rows_apart :
    {es : List Event} {s : System}
    → Reach es s
    → length (ids es) ≤ 2 ^ 32
    → (i j a b : ℕ) → i ≢ j
    → s.pc i ≡ logging a
    → s.pc j ≡ logging b
    → a ≢ b
rows_apart r few i j a b d p q same =
    ground (arith, d, p, q, same, (Reach-IsApart r few).apart i j a)
