-- ===== src/Counter/Sum.antt =====
-- Runs of `log2mem_counter_add`: each counter ends at the sum of what was added to it, in whatever
-- order the calls came.
use log2mem.Prelude.{
  ℕ, ◌+◌, ◌^◌, ◌<◌, ◌≡◌, refl, ◌∙◌, sym, ap, arith, if◌then◌else◌, ◌==◌, ==_of_eq, ==_of_ne, u32,
  List, [], ◌∷◌,
}
use mathlib.Core.List.{Perm, Permᴰ}
use mathlib.Core.Logic.{∥∥₁_elim}
use native.Mathlib.Nat.{ℕ_set}
use native.Mathlib.Decide.{ℕ_discrete}
use log2mem.Memory.{load}
use log2mem.Config.{Config}
use log2mem.State.{Handle, State, Os, M, returned, ◌>>◌}
use log2mem.Ready.{IsReady}
use log2mem.Ready.Prepared.{bind_returned}
use log2mem.Counter.{counter_add}
use log2mem.Counter.Bank.{Bank, index, counter_cell, bank_add, HasBank}
use log2mem.Counter.Refine.{counter_add-HasBank}

-- Calls in a row, each with an id and a value; also those of several threads, in the order in which
-- their atomic additions happen.
unfoldable pub counter_adds : Os → List (ℕ × ℕ) → M (Unit {0})
counter_adds os [] s = returned tt s
counter_adds os ((id, v) ∷ calls) s = (counter_add os id v >> counter_adds os calls) s

abbrev pub bank_adds : Config → List (ℕ × ℕ) → Bank → Bank
bank_adds c [] b = b
bank_adds c ((id, v) ∷ calls) b = bank_adds c calls (bank_add c id v b)

-- What a call, and what the calls add to the counter at index `i`.
abbrev pub added : Config → ℕ → ℕ × ℕ → ℕ
added c i call = if index c call.0 == i then call.1 else 0

abbrev pub total : Config → ℕ → List (ℕ × ℕ) → ℕ
total c i [] = 0
total c i (call ∷ calls) = added c i call + total c i calls

bank_add-value :
    (c : Config) (id v : ℕ) (b : Bank) (i : ℕ)
    → (b i).value < 2 ^ 32
    → (bank_add c id v b i).value ≡ u32 ((b i).value + (if index c id == i then v else 0))
unfolding bank_add
bank_add-value c id v b i small = elim (ℕ_discrete (index c id) i) [
  | yes e ↦ rw (==_of_eq (index c id) i e) (ap (λ (t : ℕ). u32 ((b t).value + v)) e)
  | no d ↦ rw (==_of_ne (index c id) i d) (omega arith)
]

bank_adds-value :
    (c : Config) (calls : List (ℕ × ℕ)) (b : Bank) (i : ℕ)
    → (b i).value < 2 ^ 32
    → (bank_adds c calls b i).value ≡ u32 ((b i).value + total c i calls)
bank_adds-value c [] b i small = omega arith
bank_adds-value c ((id, v) ∷ calls) b i small =
    let step = bank_add-value c id v b i small in
    bank_adds-value c calls (bank_add c id v b) i (omega (arith, step)) ∙ omega (arith, step)

-- A run of additions on a ready process that holds a bank of 32-bit counts returns, and every
-- counter then holds its old value plus the sum of what was added to it, modulo 2 ^ 32.
pub counter_adds-total :
    (os : Os) {c : Config} {h : Handle} (s : State) (b : Bank) (calls : List (ℕ × ℕ))
    → ((i : ℕ) → (b i).value < 2 ^ 32)
    → IsReady c h s
    → HasBank c h s.mem b
    → (s' : State) × (counter_adds os calls s ≡ returned tt s')
      × IsReady c h s'
      × ((i : ℕ)
          → i < c.num_counters
          → load 4 (counter_cell h i) s'.mem ≡ u32 ((b i).value + total c i calls))
unfolding counter_adds
counter_adds-total os s b [] small r e =
    (s, refl, r, λ i p. (e.cells i p).value ∙ omega (arith, small i))
counter_adds-total os {c} s b ((id, v) ∷ calls) small r e =
    let first = counter_add-HasBank os id v r e in
    let step = λ (i : ℕ). bank_add-value c id v b i (small i) in
    let rest =
      counter_adds-total os first.0 (bank_add c id v b) calls (λ i. omega (arith, step i)) first.2
        first.3 in
    (
      rest.0,
      bind_returned (counter_add os id v) _ s first.1 ∙ rest.1,
      rest.2,
      λ i p. rest.3 i p ∙ omega (arith, step i),
    )

total-perm : (c : Config) (i : ℕ) {xs ys : List (ℕ × ℕ)} → Permᴰ xs ys → total c i xs ≡ total c i ys
total-perm c i Permᴰ.nil = refl
total-perm c i (Permᴰ.cons e p) = omega (arith, ap (added c i) e, total-perm c i p)
total-perm c i (Permᴰ.swap e f) = omega (arith, ap (added c i) e, ap (added c i) f)
total-perm c i (Permᴰ.trans p q) = total-perm c i p ∙ total-perm c i q

-- Two orders of the same additions, on a ready process that holds a bank of 32-bit counts, both
-- return and give every counter the same value.
pub counter_adds-perm :
    (os os' : Os) {c : Config} {h : Handle} (s : State) (b : Bank) (xs ys : List (ℕ × ℕ))
    → ((i : ℕ) → (b i).value < 2 ^ 32)
    → IsReady c h s
    → HasBank c h s.mem b
    → Perm xs ys
    → (s1 : State) × (s2 : State) × (counter_adds os xs s ≡ returned tt s1)
      × (counter_adds os' ys s ≡ returned tt s2)
      × ((i : ℕ)
          → i < c.num_counters
          → load 4 (counter_cell h i) s1.mem ≡ load 4 (counter_cell h i) s2.mem)
counter_adds-perm os os' {c} s b xs ys small r e p =
    let one = counter_adds-total os s b xs small r e in
    let two = counter_adds-total os' s b ys small r e in
    let same : (i : ℕ) → total c i xs ≡ total c i ys =
      λ i. ∥∥₁_elim p (ℕ_set (total c i xs) (total c i ys)) (total-perm c i) in
    (
      one.0,
      two.0,
      one.1,
      two.1,
      λ i q. one.3 i q ∙ ap (λ t. u32 ((b i).value + t)) (same i) ∙ sym (two.3 i q),
    )
