-- ===== src/Threads/Invariant/Shared.antt =====
-- The invariant of a process with several threads, and that it holds at the start.
use log2mem.Prelude.{ℕ, ◌^◌, ◌%◌, ◌≡◌, ◌≢◌, refl, none, some, List, [], ◌∷◌}
use log2mem.Prelude.{length, arith}
use log2mem.Memory.{Mem, load}
use log2mem.State.{Handle, State}
use log2mem.Threads.{
  Pc, Event, locked, creating, created, leaving, ready, logging, critical, begin, handles, ids,
  count_down,
}

-- What the place of a thread says about the shared state: whether the handle is set, and whether a
-- map has been made.
abbrev pub IsFresh : List Event → State → Pc → Type 0
IsFresh es s (locked _) = s.handle ≡ none → handles es ≡ []
IsFresh es s (creating _) = (s.handle ≡ none) × (handles es ≡ [])
IsFresh es s (created h) = (s.handle ≡ none) × (handles es ≡ h ∷ []) × (load 4 28 s.mem ≡ 0)
IsFresh es s leaving = s.handle ≢ none
IsFresh es s ready = s.handle ≢ none
IsFresh es s (logging _) = s.handle ≢ none
IsFresh es s _ = Unit

pub record Inv (es : List Event) (s : State) (pc : ℕ → Pc) : Type 0 where
  pub held : s.lock ≢ 0 → (j : ℕ) × (critical (pc j) ≡ 1)
  pub free : s.lock ≡ 0 → (j : ℕ) → critical (pc j) ≡ 0
  pub unique : (i j : ℕ) → critical (pc i) ≡ 1 → critical (pc j) ≡ 1 → i ≡ j
  pub fresh : (i : ℕ) → IsFresh es s (pc i)
  pub unmade : s.lock ≡ 0 → s.handle ≡ none → handles es ≡ []
  pub made_once : (h : Handle) → s.handle ≡ some h → handles es ≡ h ∷ []
  pub no_ids : s.handle ≡ none → ids es ≡ []
  pub counted : ids es ≡ count_down (length (ids es))
  pub next : s.handle ≢ none → load 4 28 s.mem ≡ length (ids es) % 2 ^ 32

pub Inv-begin : (m : Mem) (errno : ℕ) → Inv [] (begin m errno).shared (begin m errno).pc
unfolding handles ids count_down
Inv-begin m errno = record {
  held = λ f. absurd (f refl);
  free = λ _ j. refl;
  unique = λ i j p q. ground arith;
  fresh = λ i. tt;
  unmade = λ _ _. refl;
  made_once = λ h p. cc;
  no_ids = λ _. refl;
  counted = refl;
  next = λ f. absurd (f refl);
}
