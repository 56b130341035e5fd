-- ===== src/Util/Named/Search.antt =====
-- The search for a label sets the variables that have it, and no other.
use log2mem.Prelude.{
  ℕ, zero, suc, ◌+◌, ◌-◌, ◌*◌, ◌^◌, ◌≤◌, ◌<◌, ◌≡◌, refl, ◌∙◌, sym, ap, inl, inr, arith, ◌==◌, ltb,
  ltb_of_lt, ltb_of_le, ==_of_eq, ==_of_ne, bit_and, if◌then◌else◌, ◌||◌, Bool, Bool-cases, true,
  false, Option, none, some, List, [], ◌∷◌, length,
}
use native.Mathlib.Decide.{ℕ_discrete, dec_lt}
use mathlib.Core.Path.{subst}
use log2mem.Memory.{Mem, read_bytes}
use log2mem.Memory.Frame.{
  Frame, Frame-trans, Frame-widen, load-Frame, read_bytes-Frame, store-Frame, load-store,
}
use log2mem.Config.{Config}
use log2mem.State.{Handle}
use log2mem.Ready.{IsSetUp, IsPowerOfTwo}
use log2mem.Element.Index.{cells-le}
use log2mem.Row.{c_string}
use log2mem.Var.{Kind, base, size, value_size, flags, text, log2mem_e_used}
use log2mem.Var.Cell.{
  Vars, Var, Stage, untouched, set_only, initialised, HasVars, IsVar, cell, bits, members, update,
}
use log2mem.Var.Refine.{update-HasVars}
use log2mem.Util.Run.{done}
use log2mem.Util.Format.{text_eq}
use log2mem.Util.Item.Show.{up_to_nul, HasNul, c_string-HasNul, first_byte, other_bytes}
use log2mem.Util.Sections.Show.{
  up_to_nul-c_string, label-length, label-bytes, array_room, next_cell,
}
use log2mem.Util.Named.{same_text, store_scanned, set_named}

abbrev pub HasNoNul : List ℕ → Type 0
HasNoNul [] = Unit
HasNoNul (x ∷ xs) = (x ≡ 0 → ⊥) × HasNoNul xs

same_text_lem :
    (n a : ℕ) (label bs : List ℕ) (m : Mem)
    → read_bytes (length bs) a m ≡ bs
    → HasNul bs
    → HasNoNul label
    → length bs ≤ n
    → same_text n label a m ≡ done (text_eq label (up_to_nul bs))
unfolding same_text read_bytes up_to_nul text_eq
same_text_lem n a label [] m e h clean fits = absurd h
same_text_lem zero a label (b ∷ bs) m e h clean fits = absurd (omega arith)
same_text_lem (suc n) a [] (b ∷ bs) m e h clean fits = elim (ℕ_discrete b 0) [
  | yes z ↦ rw (first_byte (m a) b _ bs e, ==_of_eq b 0 z) refl
  | no d ↦ rw (first_byte (m a) b _ bs e, ==_of_ne b 0 d) refl
]
same_text_lem (suc n) a (x ∷ xs) (b ∷ bs) m e h clean fits = elim (ℕ_discrete b 0) [
  | yes z ↦
      rw (first_byte (m a) b _ bs e, ==_of_eq b 0 z, ==_of_ne b x (λ s. clean.0 (sym s ∙ z))) refl
  | no d ↦ elim (ℕ_discrete b x) [
    | yes s ↦
        rw
          (
            first_byte (m a) b _ bs e,
            ==_of_ne b 0 d,
            ==_of_eq b x s,
            ==_of_eq x b (sym s),
            same_text_lem n (a + 1) xs bs m (other_bytes (m a) b _ bs e)
                (elim h [ inl z ↦ absurd (d z) | inr more ↦ more ]) clean.1 (omega arith),
          )
          refl
    | no s ↦
        rw
          (first_byte (m a) b _ bs e, ==_of_ne b 0 d, ==_of_ne b x s, ==_of_ne x b (λ p. s (sym p)))
          refl
  ]
]

-- The value of a variable that was set and has the label, if a number was found.
abbrev pub is_named : List ℕ → Var → Bool
is_named label x = elim x.stage [
  | untouched ↦ false
  | set_only ↦ text_eq label (up_to_nul x.label)
  | initialised ↦ text_eq label (up_to_nul x.label)
]

abbrev pub with_value : Option ℕ → Var → Var
with_value none x = x
with_value (some v) x = record x { value = v }

abbrev pub assign : List ℕ → Option ℕ → Var → Var
assign label value x = if is_named label x then with_value value x else x

-- A number that was found fits the kind.
abbrev pub FitsKind : Kind → Option ℕ → Type 0
FitsKind k none = Unit
FitsKind k (some v) = v < 256 ^ value_size k

store_scanned-IsVar :
    (k : Kind) (a : ℕ) (value : Option ℕ) (m : Mem) (x : Var)
    → FitsKind k value
    → IsVar k a m x
    → IsVar k a (store_scanned k a value m) (with_value value x)
unfolding store_scanned
store_scanned-IsVar k a none m x small v = v
store_scanned-IsVar k a (some n) m x small v = record {
  value = load-store (value_size k) a n m small;
  stage =
      load-Frame 4 (a + flags k) (inr (omega (arith, members k))) (store-Frame (value_size k) a n m)
      ∙ v.stage;
  label =
      read_bytes-Frame 63 (a + text k) (inr (omega (arith, members k)))
        (store-Frame (value_size k) a n m)
      ∙ v.label;
  terminated =
      store-Frame (value_size k) a n m (a + text k + 63) (inr (omega (arith, members k)))
      ∙ v.terminated;
}

store_scanned-Frame :
    (k : Kind) (a : ℕ) (value : Option ℕ) (m : Mem)
    → Frame a (a + size k) m (store_scanned k a value m)
unfolding store_scanned
store_scanned-Frame k a none m b h = refl
store_scanned-Frame k a (some n) m b h =
    store-Frame (value_size k) a n m b (omega (arith, members k))

-- Whether one of `count` variables from index `i` on has the label, or one before had it.
unfoldable pub hits : List ℕ → Vars → ℕ → ℕ → Bool → Bool
hits label vs zero i found = found
hits label vs (suc count) i found = hits label vs count (i + 1) (is_named label (vs i) || found)

-- The variables below index `i` are assigned.
abbrev assigned : List ℕ → Option ℕ → ℕ → Vars → Vars
assigned label value i vs j = if ltb j i then assign label value (vs j) else vs j

HasVars-ext :
    (k : Kind) {c : Config} {h : Handle} {m : Mem} (vs ws : Vars)
    → ((j : ℕ) → j < c.num_vars → vs j ≡ ws j)
    → HasVars k c h m vs
    → HasVars k c h m ws
HasVars-ext k {c} {h} {m} vs ws e v = record {
  config = v.config;
  vars = λ j lt. subst (λ x. IsVar k (cell k h j) m x) (e j lt) (v.vars j lt);
}

assigned-suc :
    (label : List ℕ) (value : Option ℕ) (i : ℕ) (vs : Vars) (j : ℕ)
    → update i (assign label value) (assigned label value i vs) j
      ≡ assigned label value (i + 1) vs j
unfolding update
assigned-suc label value i vs j = elim (ℕ_discrete i j) [
  | yes e ↦ rw (==_of_eq i j e) (
      rw (ltb_of_le i i (omega arith), ltb_of_lt j (i + 1) (omega arith))
        (ap (λ t. assign label value (vs t)) e))
  | no d ↦ rw (==_of_ne i j d) (elim (dec_lt j i) [
    | yes lt ↦ rw (ltb_of_lt j i lt, ltb_of_lt j (i + 1) (omega arith)) refl
    | no ge ↦ rw (ltb_of_le j i (omega arith), ltb_of_le j (i + 1) (omega arith)) refl
  ])
]

-- A round goes on with what it has found.
by_stage :
    {A : Type 0} (stage : Stage) (same : Bool) (next : Bool → Mem → A) (found : Bool) (m m1 : Mem)
    → (if bit_and (bits stage) log2mem_e_used == 0
        then next found m
        else if same
        then next true m1
        else next found m)
      ≡ next ((elim stage [ untouched ↦ false | set_only ↦ same | initialised ↦ same ]) || found) (
          if (elim stage [ untouched ↦ false | set_only ↦ same | initialised ↦ same ])
          then m1
          else m)
by_stage untouched same next found m m1 = refl
by_stage set_only true next found m m1 = refl
by_stage set_only false next found m m1 = refl
by_stage initialised true next found m m1 = refl
by_stage initialised false next found m m1 = refl

module _ (k : Kind) {c : Config} {h : Handle} (u : IsSetUp c h) (end : ℕ)
    (inside : h.int_vars + c.num_vars * 72 ≤ end) (label : List ℕ) (clean : HasNoNul label)
    (value : Option ℕ) (small : FitsKind k value) where
  -- What a round makes of the map.
  abbrev stored : ℕ → Var → Mem → Mem
  stored a x m = if is_named label x then store_scanned k a value m else m

  compares :
      (i : ℕ) (m : Mem) (x : Var)
      → IsVar k (cell k h i) m x
      → cell k h i + size k ≤ end
      → same_text (end - (cell k h i + text k)) label (cell k h i + text k) m
        ≡ done (text_eq label (up_to_nul x.label))
  compares i m x here room =
      same_text_lem (end - (cell k h i + text k)) (cell k h i + text k) label (c_string x.label) m
        (label-bytes k (cell k h i) m x here) (c_string-HasNul x.label) clean
        (omega (arith, members k, room, label-length k (cell k h i) m x here))
      ∙ ap (λ t. done (text_eq label t)) (up_to_nul-c_string x.label)

  round :
      (count i : ℕ) (found : Bool) (m : Mem) (x : Var)
      → i < c.num_vars
      → IsVar k (cell k h i) m x
      → set_named k end label value (suc count) (cell k h i) found m
        ≡ set_named k end label value count
            (cell k h (i + 1))
            (is_named label x || found)
            (stored (cell k h i) x m)
  unfolding set_named
  round count i found m x lt here =
      let room = cells-le i c.num_vars (size k) lt in
      rw
        (
          ltb_of_le end (cell k h i + size k)
              (omega (arith, room, array_room k u.is_mapped inside)),
          here.stage,
          compares i m x here (omega (arith, room, array_room k u.is_mapped inside)),
          next_cell (base k h) i (size k),
        )
        (by_stage x.stage (text_eq label (up_to_nul x.label))
          (set_named k end label value count (cell k h (i + 1))) found m
          (store_scanned k (cell k h i) value m))

  stored-IsVar :
      (i : ℕ) (m : Mem) (x : Var)
      → IsVar k (cell k h i) m x
      → IsVar k (cell k h i) (stored (cell k h i) x m) (assign label value x)
  stored-IsVar i m x here = elim (Bool-cases (is_named label x)) [
    | inl p ↦ rw (p) (store_scanned-IsVar k (cell k h i) value m x small here)
    | inr p ↦ rw (p) here
  ]

  stored-Frame :
      (i : ℕ) (m : Mem) (x : Var)
      → Frame (cell k h i) (cell k h i + size k) m (stored (cell k h i) x m)
  stored-Frame i m x = elim (Bool-cases (is_named label x)) [
    | inl p ↦ rw (p) (store_scanned-Frame k (cell k h i) value m)
    | inr p ↦ rw (p) (λ b o. refl)
  ]

  some_vars : (i : ℕ) → i < c.num_vars → IsPowerOfTwo c.num_vars
  some_vars i lt = elim (u.rounded.vars) [ inl none_there ↦ absurd (omega arith) | inr p ↦ p ]

  not_yet : (i : ℕ) (vs : Vars) → assigned label value i vs i ≡ vs i
  not_yet i vs = rw (ltb_of_le i i (omega arith)) refl

  search :
      (count i : ℕ) (found : Bool) (m : Mem) (vs : Vars)
      → i + count ≡ c.num_vars
      → HasVars k c h m (assigned label value i vs)
      → (m' : Mem) × (set_named k end label value count (cell k h i) found m
          ≡ done (hits label vs count i found, m'))
        × HasVars k c h m' (assigned label value c.num_vars vs)
        × Frame (base k h) (base k h + c.num_vars * size k) m m'
  unfolding hits set_named
  search zero i found m vs e v = (
    m,
    refl,
    subst (λ t. HasVars k c h m (assigned label value t vs)) (omega arith) v,
    λ b o. refl,
  )
  search (suc count) i found m vs e v =
      let lt : i < c.num_vars = omega arith in
      let here : IsVar k (cell k h i) m (vs i) =
        subst (λ x. IsVar k (cell k h i) m x) (not_yet i vs) (v.vars i lt) in
      let m1 : Mem = stored (cell k h i) (vs i) m in
      let v1 : HasVars k c h m1 (assigned label value (i + 1) vs) =
        HasVars-ext k (update i (assign label value) (assigned label value i vs))
          (assigned label value (i + 1) vs) (λ j below. assigned-suc label value i vs j)
          (update-HasVars k u (some_vars i lt) i (assign label value) lt (stored-Frame i m (vs i))
            (subst (λ x. IsVar k (cell k h i) m1 (assign label value x)) (sym (not_yet i vs))
              (stored-IsVar i m (vs i) here))
            v) in
      let rest = search count (i + 1) (is_named label (vs i) || found) m1 vs (omega arith) v1 in
      (
        rest.0,
        round count i found m (vs i) lt here ∙ rest.1,
        rest.2,
        Frame-trans
            (Frame-widen (omega arith) (omega (arith, cells-le i c.num_vars (size k) lt))
              (stored-Frame i m (vs i)))
            rest.3,
      )

  -- The search in one array ends, having given every variable that was set and has the label the
  -- number that was found in the value, if there was one, and changed nothing else of the map; it
  -- tells whether there was such a variable.
  pub set_named-HasVars :
      (found : Bool) (m : Mem) (vs : Vars)
      → HasVars k c h m vs
      → (m' : Mem) × (set_named k end label value c.num_vars (base k h) found m
          ≡ done (hits label vs c.num_vars 0 found, m'))
        × HasVars k c h m' (λ i. assign label value (vs i))
        × Frame (base k h) (base k h + c.num_vars * size k) m m'
  set_named-HasVars found m vs v =
      let (m', returns, vars, frame) = search c.num_vars 0 found m vs (omega arith) (
        HasVars-ext k vs (assigned label value 0 vs) (λ j lt. rw (ltb_of_le j 0 (omega arith)) refl)
          v) in
      (
        m',
        ap (λ (t : ℕ). set_named k end label value c.num_vars t found m) (omega arith) ∙ returns,
        HasVars-ext k (assigned label value c.num_vars vs) (λ i. assign label value (vs i))
            (λ j lt. rw (ltb_of_lt j c.num_vars lt) refl) vars,
        frame,
      )
