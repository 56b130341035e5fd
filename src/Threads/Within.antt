-- ===== src/Threads/Within.antt =====
-- A thread that runs undisturbed reaches what its calls do in Init.antt and Row/Log.antt.
use log2mem.Prelude.{
  ℕ, ◌≤◌, ◌≡◌, ◌≢◌, ◌^◌, ◌<◌, [], ◌∷◌, ◌++◌, refl, Option, List, sym, arith, some,
}
use mathlib.Core.Path.{subst}
use log2mem.Config.{Config}
use log2mem.State.{Handle, State, Os, returned}
use log2mem.Init.{init}
use log2mem.Ready.{IsReady}
use log2mem.Row.Log.{init_row}
use log2mem.Row.Slot.{slot, slot_of}
use log2mem.Row.Stamp.{IsShort}
use log2mem.Ring.{Log, Represents}
use log2mem.Threads.{Pc, outside, ready, logging, Event, Move, set_pc, System, pick, Reach, later}
use log2mem.Threads.Alone.{Runs, arrived, moves, init-Runs, init_row-Runs}

-- Steps of thread `i` alone from the state `s`, with the events on the way, the last one first.
pub data Only (i : ℕ) (s : System) : List Event → System → Type 0 where
  stay : Only i s [] s
  goes :
      {es : List Event} {e : Event} {t : System} {next : State} {p : Pc}
      → Only i s es t
      → Move t.shared e (t.pc i) next p
      → Only i s (e ∷ es) (record { shared = next; pc = set_pc t.pc i p })

Only-Reach :
    {i : ℕ} {s : System} {es es' : List Event} {t : System}
    → Reach es s
    → Only i s es' t
    → Reach (es' ++ es) t
Only-Reach r stay = r
Only-Reach {i} r (goes o mv) = later (Only-Reach r o) (pick i mv)

Only-others :
    {i : ℕ} {s : System} {es : List Event} {t : System}
    → Only i s es t
    → (j : ℕ) → j ≢ i
    → t.pc j ≡ s.pc j
Only-others stay j d = refl
Only-others {i} (goes o mv) j d = ground (arith, d, Only-others o j d)

-- From the state `s`, reached with the events `es`, thread `i` comes by steps of its own to a state
-- with this shared part, and stands here; the other threads stand where they did.
pub record IsReached (es : List Event) (s : System) (i : ℕ) (shared : State) (p : Pc) : Type 0 where
  pub events : List Event
  pub system : System
  pub only : Only i s events system
  pub reach : Reach (events ++ es) system
  pub is_shared : system.shared ≡ shared
  pub stands : system.pc i ≡ p
  pub others : (j : ℕ) → j ≢ i → system.pc j ≡ s.pc j

Runs-IsReached :
    {es es' : List Event} (s t : System) (i : ℕ) {from : State} {p p' : Pc} {s' : State}
    → Reach es s
    → Only i s es' t
    → t.shared ≡ from
    → t.pc i ≡ p
    → Runs from p s' p'
    → IsReached es s i s' p'
Runs-IsReached {es' = es'} s t i r o same q arrived = record {
  events = es';
  system = t;
  only = o;
  reach = Only-Reach r o;
  is_shared = same;
  stands = q;
  others = Only-others o;
}
Runs-IsReached s t i r o same q (moves {s' = next} {e = e} {p = p} {p' = p1} mv rest) =
    Runs-IsReached s (record { shared = next; pc = set_pc t.pc i p1 }) i r
      (goes o (
        subst (λ x. Move t.shared e x next p1) (sym q)
          (subst (λ x. Move x e p next p1) (sym same) mv)))
      refl (ground arith) rest

-- In any reachable state whose lock is free, if a call of `log2mem_init` in Init.antt with at most 20
-- bytes of configuration returns, then a thread outside the library comes by steps of its own, while
-- no other thread steps, to a reachable state whose shared part is what that call leaves; it stands
-- behind the call then, and the other threads where they did.
pub init-IsReached :
    {es : List Event} (s : System) (i : ℕ) (os : Os) (fn : Option (List ℕ)) (user : List ℕ) (n : ℕ)
    (s' : State)
    → Reach es s
    → s.pc i ≡ outside
    → s.shared.lock ≡ 0
    → n ≤ 20
    → init os fn user n s.shared ≡ returned tt s'
    → IsReached es s i s' ready
init-IsReached s i os fn user n s' r q free small e =
    Runs-IsReached s s i r stay refl q (init-Runs os fn user n s.shared s' small free e)

-- In any reachable state whose map holds a log, `log2mem_get_row` in Row/Log.antt returns, and a
-- thread behind `MEMLOG_PREPARE_PTR` comes by steps of its own, while no other thread steps, to a
-- reachable state whose shared part is what that call leaves; it has the next id then, and the other
-- threads stand where they did. The file's name fits a row's size.
pub init_row-IsReached :
    {es : List Event} (s : System) (i : ℕ) (os : Os) {c : Config} {h : Handle} (l : Log)
    (fn : Option (List ℕ)) (lineno : ℕ)
    → Reach es s
    → s.pc i ≡ ready
    → IsReady c h s.shared
    → Represents c h s.shared.mem l
    → l.next < 2 ^ 32
    → IsShort fn
    → (s' : State) × (init_row os fn lineno s.shared
        ≡ returned (some (slot c h (slot_of c l.next))) s')
      × IsReached es s i s' (logging l.next)
init_row-IsReached s i os l fn lineno r q is_ready v word short =
    let t = init_row-Runs os s.shared l fn lineno is_ready v word short in
    (t.after, t.returns, Runs-IsReached s s i r stay refl q t.steps)
