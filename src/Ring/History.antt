-- ===== src/Ring/History.antt =====
-- What the slots hold when each row is filled before the next is taken: the last `num_rows` rows,
-- with their items.
use log2mem.Prelude.{ℕ, suc, ◌+◌, ◌-◌, ◌*◌, ◌/◌, ◌%◌, ◌^◌, ◌≤◌, ◌<◌, ◌≡◌, refl, ◌∙◌, sym, ap, arith}
use log2mem.Prelude.{==_of_eq, ==_of_ne, List, [], ◌∷◌, length}
use mathlib.Core.Path.{subst}
use log2mem.Row.Stamp.{place_items}
use log2mem.Ring.Append.{string_item}
use native.Mathlib.Decide.{ℕ_discrete}
use native.Mathlib.Nat.{
  add-mul-mod_self_left, lt-mul-div-succ, mul-div-le, mod-eq_of_lt, mul-suc, mod-le,
}
use log2mem.Config.{Config}
use log2mem.Row.Item.{Item, append_item}
use log2mem.Row.Slot.{slot_of}
use log2mem.Ring.{Log, empty_log, new_entry, append_entry}
use log2mem.Ring.Recent.{mod-ne}
use log2mem.Ring.Run.{Call, call_items, write_log}

-- After `n` rows, of which row `k` holds the items `hist k`.
pub record IsHistory (c : Config) (n : ℕ) (hist : ℕ → List Item) (l : Log) : Type 0 where
  pub next : l.next ≡ n
  pub kept :
      (k : ℕ)
      → k < n
      → n ≤ k + c.num_rows
      → l.entry (slot_of c k) ≡ record { id = k; items = hist k }
  pub untouched : (i : ℕ) → n ≤ i → l.entry i ≡ record { id = 0; items = [] }

-- Every slot that was ever taken holds one of the last rows.
pub holder : {n i : ℕ} (d : ℕ) → i < d → i < n → (k : ℕ) × (k < n) × (n ≤ k + d) × (k % d ≡ i)
holder {n} {i} d slot taken =
    let q = (n - 1 - i) / d in
    let above = lt-mul-div-succ (n - 1 - i) {b = d} (omega arith) in
    let below = mul-div-le (n - 1 - i) d in
    (
      i + d * q,
      omega (arith, below),
      omega (arith, above, mul-suc d q),
      add-mul-mod_self_left i d q ∙ mod-eq_of_lt slot,
    )

module _ {c : Config} {n : ℕ} {hist : ℕ → List Item} {l : Log} (is : List Item) (x : Item)
    (pos : 0 < c.num_rows) (word : suc n < 2 ^ 32) (holds : hist n ≡ append_item c.row_len is x)
    (r : IsHistory c n hist l) where
  abbrev pub filled : Log
  filled = append_entry c (slot_of c l.next) x (new_entry c is l)

  there : (i : ℕ) → slot_of c n ≡ i → (filled).entry i ≡ record { id = n; items = hist n }
  unfolding new_entry append_entry
  there i e =
      rw (r.next, ==_of_eq (n % c.num_rows) i e, ==_of_eq (n % c.num_rows) (n % c.num_rows) refl)
        (ap (λ (t : List Item). record { id = n; items = t }) (sym holds))

  elsewhere : (i : ℕ) → (slot_of c n ≡ i → ⊥) → (filled).entry i ≡ l.entry i
  unfolding new_entry append_entry
  elsewhere i d = rw (r.next, ==_of_ne (n % c.num_rows) i d) refl

  pub filled-IsHistory : IsHistory c (suc n) hist filled
  unfolding new_entry append_entry
  filled-IsHistory = record {
    next = omega (arith, r.next);
    kept = λ k p q. elim (ℕ_discrete k n) [
      | yes e ↦
          there (slot_of c k) (ap (slot_of c) (sym e))
          ∙ ap (λ (t : ℕ). record { id = t; items = hist t }) (sym e)
      | no d ↦
          elsewhere (slot_of c k)
            (λ s. mod-ne c.num_rows k n pos (omega arith) (omega arith) (sym s))
          ∙ r.kept k (omega arith) (omega arith)
    ];
    untouched = λ i p.
        elsewhere i (λ s. omega (arith, s, mod-le n c.num_rows)) ∙ r.untouched i (omega arith);
  }

-- `hist` has the items of these calls, from row `n` on.
abbrev pub Agrees : Config → (ℕ → List Item) → ℕ → List Call → Type 0
Agrees c hist n [] = Unit
Agrees c hist n (call ∷ calls) = (hist n ≡ call_items c call) × Agrees c hist (suc n) calls

pub write_log-IsHistory :
    {c : Config} {hist : ℕ → List Item} (calls : List Call) {n : ℕ} {l : Log}
    → 0 < c.num_rows
    → n + length calls < 2 ^ 32
    → Agrees c hist n calls
    → IsHistory c n hist l
    → IsHistory c (n + length calls) hist (write_log c l calls)
write_log-IsHistory {c} {hist} [] {n} {l} pos word a r =
    subst (λ t. IsHistory c t hist l) (omega arith) r
write_log-IsHistory {c} {hist} (call ∷ calls) {n} {l} pos word a r =
    subst (λ t. IsHistory c t hist (write_log c l (call ∷ calls))) (omega arith)
      (write_log-IsHistory calls pos (omega arith) a.1 (
        filled-IsHistory (place_items c call.filename call.lineno) (string_item call.text) pos
          (omega arith) a.0 r))

pub empty-IsHistory : (c : Config) (hist : ℕ → List Item) → IsHistory c 0 hist empty_log
empty-IsHistory c hist = record {
  next = refl;
  kept = λ k p q. absurd (omega arith);
  untouched = λ i p. refl;
}
