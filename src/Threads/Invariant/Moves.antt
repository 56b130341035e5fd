-- ===== src/Threads/Invariant/Moves.antt =====
-- A step of one thread keeps each field of `Inv`.
use log2mem.Prelude.{ℕ, suc, ◌+◌, ◌^◌, ◌%◌, ◌≡◌, ◌≢◌, refl, Option, none, some, List, [], ◌∷◌}
use log2mem.Prelude.{length, arith, inl, ◌∙◌, Bool, true, false, if◌then◌else◌}
use mathlib.Core.Path.{ap₂}
use native.Mathlib.Nat.{mod-lt}
use log2mem.Memory.{Mem, load, fill}
use log2mem.Memory.Frame.{load-Frame, load-store}
use log2mem.State.{Handle, State, Os, returned, exited}
use log2mem.Config.{Config}
use log2mem.Create.{create, round_config, write_header}
use log2mem.Create.Header.{header-nextrow}
use log2mem.Row.Log.{take_row_id}
use log2mem.Threads.{
  Pc, ready, Event, Move, outer_set, prepare_set, store_ready, spin, acquire, inner_set,
  inner_unset, make, publish, unlock, take, store_behind, set_pc, critical, handles, ids,
  count_down, test_and_set, lock_release, fetch_row_id,
}
use log2mem.Threads.Invariant.Shared.{IsFresh, Inv}

-- What `__log2mem_create` leaves of the process, if it returns.
record HasMade (s s' : State) : Type 0 where
  same_handle : s'.handle ≡ s.handle
  same_lock : s'.lock ≡ s.lock
  no_row : load 4 28 s'.mem ≡ 0

mapped-HasMade :
    (os : Os) (c : Config) (size : ℕ) (made : Handle) (s : State) {h : Handle} {s' : State}
    → (fits : Bool) (map : Option Mem)
    → (if fits
        then elim map [
          | none ↦ exited 1
          | some m ↦ returned made (record s { mem = write_header os c (fill 0 size 0 m) })
        ]
        else exited 1)
      ≡ returned h s'
    → HasMade s s'
mapped-HasMade os c size made s true (some m) e =
    ground (arith, header-nextrow os c (fill 0 size 0 m))
mapped-HasMade os c size made s true none e = ground arith
mapped-HasMade os c size made s false map e = ground arith

create-HasMade :
    (os : Os) (fn : Option (List ℕ)) (c : Config) (s : State) {h : Handle} {s' : State}
    → create os fn c s ≡ returned h s'
    → HasMade s s'
unfolding create
create-HasMade os fn c s e = mapped-HasMade os (round_config c) _ _ s _ _ e

take_row_id_lem :
    (n : ℕ) (m : Mem)
    → load 4 28 m ≡ n % 2 ^ 32
    → ((take_row_id m).0 ≡ n % 2 ^ 32) × (load 4 28 (take_row_id m).1 ≡ suc n % 2 ^ 32)
unfolding take_row_id
take_row_id_lem n m e = (
  omega (arith, e),
  load-store 4 28 ((load 4 28 m + 1) % 2 ^ 32) m (mod-lt _ (omega arith)) ∙ omega (arith, e),
)

-- The premise of a move, for the catch-all clauses below, which cannot name it.
abbrev Guard : {s s' : State} {e : Event} {p p' : Pc} → Move s e p s' p' → Type 0
Guard {s} (prepare_set {h} _) = s.handle ≡ some h
Guard {s} (outer_set {h = h} _) = s.handle ≡ some h
Guard {s} (spin _) = s.lock ≢ 0
Guard {s} (acquire _) = s.lock ≡ 0
Guard {s} (inner_set {h = h} _) = s.handle ≡ some h
Guard {s} (inner_unset _) = s.handle ≡ none
Guard {s} {s'} (make _ _) = HasMade s s'
Guard _ = Unit

guard : {s s' : State} {e : Event} {p p' : Pc} (mv : Move s e p s' p') → Guard mv
unfolding test_and_set
guard (prepare_set p) = p
guard (outer_set p) = p
guard (spin p) = p
guard (acquire p) = p
guard (inner_set p) = p
guard (inner_unset p) = p
guard {s} (make {c} os e) = create-HasMade os c.filename c.config s e
guard _ = tt

module _ {es : List Event} {s : State} {pc : ℕ → Pc} (inv : Inv es s pc) (i : ℕ) where
  open inv use {held, free, unique, fresh, unmade, made_once, no_ids, counted, next}

  -- Thread `i` goes from `p` to `p'`. A match on `Move` needs the variable `p` for `pc i`.
  record Mover (p : Pc) : Type 0 where
    here : pc i ≡ p
    own : IsFresh es s p

  ready_set : (p : Pc) → p ≡ ready → IsFresh es s p → s.handle ≢ none
  ready_set p q own = ground (arith, q, own)

  free_at : (j : ℕ) → s.lock ≡ 0 → critical (pc j) ≡ 0
  free_at j q = free q j

  Move-held :
      {p p' : Pc} {e : Event} {s' : State}
      → Move s e p s' p'
      → Mover p
      → s'.lock ≢ 0
      → (j : ℕ) × (critical (set_pc pc i p' j) ≡ 1)
  unfolding test_and_set lock_release fetch_row_id
  Move-held (acquire q) f l = (i, ground arith)
  Move-held (inner_set q) f l = (i, ground arith)
  Move-held (inner_unset q) f l = (i, ground arith)
  Move-held (make os q) f l = (i, ground arith)
  Move-held publish f l = (i, ground arith)
  Move-held unlock f l = absurd (l refl)
  Move-held mv f l = let (j, q) = held (ground (arith, guard mv)) in (j, ground arith)

  Move-free :
      {p p' : Pc} {e : Event} {s' : State}
      → Move s e p s' p'
      → Mover p
      → s'.lock ≡ 0
      → (j : ℕ) → critical (set_pc pc i p' j) ≡ 0
  unfolding test_and_set lock_release fetch_row_id
  Move-free unlock f l j = ground (arith, unique i j)
  Move-free mv f l j = ground (arith, guard mv, free_at i, free_at j)

  Move-unique :
      {p p' : Pc} {e : Event} {s' : State}
      → Move s e p s' p'
      → Mover p
      → (a b : ℕ) → critical (set_pc pc i p' a) ≡ 1
      → critical (set_pc pc i p' b) ≡ 1
      → a ≡ b
  unfolding test_and_set lock_release fetch_row_id
  Move-unique (acquire q) f a b x y = ground (arith, free q a, free q b)
  Move-unique mv f a b x y = ground (arith, guard mv, unique a b, unique i a, unique i b)

  Move-IsFresh :
      {p p' : Pc} {e : Event} {s' : State}
      → Move s e p s' p'
      → Mover p
      → (j : ℕ) → IsFresh (e ∷ es) s' (set_pc pc i p' j)
  unfolding test_and_set lock_release fetch_row_id handles
  Move-IsFresh take f j = ground (arith, fresh j)
  Move-IsFresh mv f j = ground (arith, guard mv, fresh j, unique i j)

  Move-handles : {p p' : Pc} {e : Event} {s' : State} → Move s e p s' p' → Mover p → record {
    unmade : s'.lock ≡ 0 → s'.handle ≡ none → handles (e ∷ es) ≡ [];
    made_once : (h : Handle) → s'.handle ≡ some h → handles (e ∷ es) ≡ h ∷ [];
  }
  unfolding test_and_set lock_release fetch_row_id handles
  Move-handles (make {c} os q) f = record {
    unmade = ground (arith, create-HasMade os c.filename c.config s q, free_at i);
    made_once = λ h r. ground (arith, create-HasMade os c.filename c.config s q);
  }
  Move-handles mv f = record {
    unmade = ground (arith, guard mv);
    made_once = λ h q. ground (arith, guard mv, made_once h);
  }

  Move-ids : {p p' : Pc} {e : Event} {s' : State} → Move s e p s' p' → Mover p → record {
    no_ids : s'.handle ≡ none → ids (e ∷ es) ≡ [];
    counted : ids (e ∷ es) ≡ count_down (length (ids (e ∷ es)));
    next : s'.handle ≢ none → load 4 28 s'.mem ≡ length (ids (e ∷ es)) % 2 ^ 32;
  }
  unfolding test_and_set lock_release fetch_row_id ids count_down
  Move-ids take f =
      let last = take_row_id_lem (length (ids es)) s.mem (next f.own) in
      record {
        no_ids = λ q. absurd (f.own q);
        counted = ap₂ ◌∷◌ last.0 counted;
        next = λ _. last.1;
      }
  Move-ids (make {c} os q) f = ground (arith, create-HasMade os c.filename c.config s q)
  Move-ids publish f = ground (arith, no_ids)
  Move-ids (store_ready {lo} {hi} q r) f = record {
    no_ids = no_ids;
    counted = counted;
    next = λ z. load-Frame 4 28 {lo = lo} {hi = hi} (inl (omega arith)) r ∙ next z;
  }
  Move-ids (store_behind {lo = lo} {hi} q r) f = record {
    no_ids = no_ids;
    counted = counted;
    next = λ z. load-Frame 4 28 {lo = lo} {hi = hi} (inl (omega arith)) r ∙ next z;
  }
  Move-ids mv f = record {
    no_ids = ground (arith, guard mv);
    counted = ground (arith, guard mv);
    next = ground (arith, guard mv);
  }

  pub Move-Inv :
      {e : Event} {s' : State} {p' : Pc} → Move s e (pc i) s' p' → Inv (e ∷ es) s' (set_pc pc i p')
  Move-Inv mv = record {
    held = Move-held mv f;
    free = Move-free mv f;
    unique = Move-unique mv f;
    fresh = Move-IsFresh mv f;
    unmade = unmade;
    made_once = made_once;
    no_ids = no_ids;
    counted = counted;
    next = next;
  }
    where
      f : Mover (pc i)
      f = record { here = refl; own = fresh i }

      open (Move-handles mv f) use {unmade, made_once}
      open (Move-ids mv f) use {no_ids, counted, next}

  -- A thread that takes a row gets the number of the rows taken before.
  pub fetched : pc i ≡ ready → (fetch_row_id s).0 ≡ length (ids es) % 2 ^ 32
  unfolding fetch_row_id
  fetched q = (take_row_id_lem (length (ids es)) s.mem (next (ready_set (pc i) q (fresh i)))).0
