-- ===== src/Ring/Recent.antt =====
-- Which rows the ring still has: the last `num_rows` that were taken, each in the slot of its id.
use log2mem.Prelude.{ℕ, suc, ◌+◌, ◌/◌, ◌%◌, ◌^◌, ◌≤◌, ◌<◌, ◌≡◌, refl, ◌∙◌, sym, ap, arith}
use log2mem.Prelude.{==_of_eq, List, ◌⊎◌, inl, inr}
use native.Mathlib.Decide.{ℕ_discrete}
use native.Mathlib.Nat.{div-add-mod, mod-le, mul-le-mul_left, mul-suc}
use log2mem.Config.{Config}
use log2mem.Row.Item.{Item}
use log2mem.Row.Slot.{slot_of}
use log2mem.Ring.Refine.{set_entry_self, set_entry_ne}
use log2mem.Ring.{Entry, Log, empty_log, set_entry, new_entry, append_entry}

-- The logs that `n` taken rows lead to, with appends to any slot at any time in between.
pub data Logged (c : Config) : ℕ → Log → Type 0 where
  start : Logged c 0 empty_log
  took : {n : ℕ} {l : Log} → Logged c n l → (is : List Item) → Logged c (suc n) (new_entry c is l)
  appended :
      {n : ℕ} {l : Log} → Logged c n l → (i : ℕ) (x : Item) → Logged c n (append_entry c i x l)

-- After `n` rows: what the next id is, what the slots hold, and what is left of a fresh map.
pub record IsRecent (c : Config) (n : ℕ) (l : Log) : Type 0 where
  pub next : l.next ≡ n
  pub kept : (k : ℕ) → k < n → n ≤ k + c.num_rows → (l.entry (slot_of c k)).id ≡ k
  pub untouched : (i : ℕ) → n ≤ i → (l.entry i).id ≡ 0

le-total-suc : (a b : ℕ) → (a ≤ b) ⊎ (suc b ≤ a)
le-total-suc a b = omega arith

-- Different ids fewer than `d` apart have different slots.
pub mod-ne : (d k n : ℕ) → 0 < d → k < n → n < k + d → k % d ≡ n % d → ⊥
mod-ne d k n pos lt near e = elim (le-total-suc (n / d) (k / d)) [
  | inl p ↦ omega (arith, div-add-mod k d, div-add-mod n d, mul-le-mul_left d p)
  | inr p ↦ omega (arith, div-add-mod k d, div-add-mod n d, mul-le-mul_left d p, mul-suc d (k / d))
]

-- Setting an entry to one with the same id changes no id.
same_ids :
    (i : ℕ) (is : List Item) (f : ℕ → Entry) (j : ℕ)
    → (set_entry i (record { id = (f i).id; items = is }) f j).id ≡ (f j).id
same_ids i is f j = elim (ℕ_discrete i j) [
  | yes e ↦ rw (==_of_eq i j e) (ap (λ (t : ℕ). (f t).id) e)
  | no d ↦ ap (λ t. t.id) (set_entry_ne i j _ f d)
]

new_entry-IsRecent :
    {c : Config} {n : ℕ} {l : Log} (is : List Item)
    → 0 < c.num_rows
    → suc n < 2 ^ 32
    → IsRecent c n l
    → IsRecent c (suc n) (new_entry c is l)
unfolding new_entry
new_entry-IsRecent {c} {n} {l} is pos word r = record {
  next = omega (arith, r.next);
  kept = λ k p q. rw (r.next) (elim (ℕ_discrete k n) [
    | yes e ↦ rw (e) (ap (λ t. t.id) (set_entry_self (slot_of c n) _ l.entry))
    | no d ↦
        ap (λ t. t.id)
          (set_entry_ne (slot_of c n) (slot_of c k) _ l.entry
            (λ s. mod-ne c.num_rows k n pos (omega arith) (omega arith) (sym s)))
        ∙ r.kept k (omega arith) (omega arith)
  ]);
  untouched = λ i p.
      ap (λ t. t.id)
        (set_entry_ne (slot_of c l.next) i _ l.entry
          (λ s. omega (arith, r.next, s, mod-le l.next c.num_rows)))
      ∙ r.untouched i (omega arith);
}

append_entry-IsRecent :
    {c : Config} {n : ℕ} {l : Log} (i : ℕ) (x : Item)
    → IsRecent c n l
    → IsRecent c n (append_entry c i x l)
unfolding append_entry
append_entry-IsRecent {c} {n} {l} i x r = record {
  next = r.next;
  kept = λ k p q. same_ids i _ l.entry (slot_of c k) ∙ r.kept k p q;
  untouched = λ j p. same_ids i _ l.entry j ∙ r.untouched j p;
}

-- After `n` rows, whatever was appended in between, the next id is `n`, each of the last `num_rows`
-- ids stands in the slot of that id, and the slots that were never reached are as in a fresh map.
-- The number of rows is positive and `n` fits the counter of ids.
pub Logged-IsRecent :
    {c : Config} {n : ℕ} {l : Log} → 0 < c.num_rows → n < 2 ^ 32 → Logged c n l → IsRecent c n l
Logged-IsRecent pos word start = record {
  next = refl;
  kept = λ k p q. absurd (omega arith);
  untouched = λ i p. refl;
}
Logged-IsRecent pos word (took before is) =
    new_entry-IsRecent is pos word (Logged-IsRecent pos (omega arith) before)
Logged-IsRecent pos word (appended before i x) =
    append_entry-IsRecent i x (Logged-IsRecent pos word before)
