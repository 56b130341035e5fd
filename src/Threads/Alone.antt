-- ===== src/Threads/Alone.antt =====
-- Calls of `log2mem_init` and `log2mem_get_row` that are not interrupted are runs of one thread's
-- steps.
use log2mem.Prelude.{
  ℕ, ◌+◌, ◌^◌, ◌<◌, u32, sub32, ◌≤◌, ltb_of_le, ◌≡◌, refl, Option, none, some, List, sym, ap, ◌∙◌,
  arith,
}
use mathlib.Core.Path.{subst}
use log2mem.Memory.{Mem}
use log2mem.Ready.Fresh.{idle, idle_eq}
use log2mem.Ready.Again.{init_again}
use log2mem.State.{Handle, State, Os, Outcome, returned, exited, spins, undefined, ◌>>=◌}
use log2mem.Create.{create}
use log2mem.Init.{init, copy_config}
use log2mem.Config.{Config}
use log2mem.Ready.{IsReady}
use log2mem.Ready.Index.{IsPowerOfTwo-pos}
use native.Mathlib.Nat.{mod-lt}
use log2mem.Memory.{load, store}
use log2mem.Memory.Frame.{Frame}
use log2mem.Row.Log.{init_row, take_row_id}
use log2mem.Row.Slot.{slot, slot_of, slot_bounds}
use log2mem.Row.Stamp.{IsShort}
use log2mem.Ring.{Log, Represents}
use log2mem.Ring.Refine.{new_row-IsTaken}
use log2mem.Ring.Call.{init_row_returns}
use log2mem.Threads.{
  take, store_behind, logging, fetch_row_id, Pc, outside, ready, Event, Move, outer_set, enter,
  outer_unset, acquire, inner_unset, make, publish, unlock, test_and_set, lock_release,
}

-- Steps of one thread, one after the other.
pub data Runs : State → Pc → State → Pc → Type 0 where
  arrived : {s : State} {p : Pc} → Runs s p s p
  moves :
      {s s' s'' : State} {e : Event} {p p' p'' : Pc}
      → Move s e p s' p'
      → Runs s' p' s'' p''
      → Runs s p s'' p''

record IsMade (os : Os) (fn : Option (List ℕ)) (user : List ℕ) (n : ℕ) (s s' : State) : Type 0 where
  handle : Handle
  mid : State
  small : n ≤ 20
  no_handle : s.handle ≡ none
  lock_free : s.lock ≡ 0
  creates : create os fn (copy_config user n) (record s { lock = 1 }) ≡ returned handle mid
  last : s' ≡ record mid { handle = some handle; lock = 0 }

made-Runs :
    (os : Os) (fn : Option (List ℕ)) (user : List ℕ) (n : ℕ) (s s' : State)
    → IsMade os fn user n s s'
    → Runs s outside s' ready
unfolding test_and_set lock_release
made-Runs os fn user n s s' v =
    subst (λ t. Runs s outside t ready) (sym v.last)
      (moves (enter fn user n v.small) (
        moves (outer_unset v.no_handle) (
          moves (acquire v.lock_free) (
            moves (inner_unset v.no_handle)
              (moves (make os v.creates) (moves publish (moves unlock arrived)))))))

-- What `log2mem_init` makes of the end of `__log2mem_create`.
end_of_create :
    (s : State) (o : Outcome Handle) {s' : State}
    → ((λ _. o)
          >>= (λ h s1. returned tt (record s1 { handle = some h }))
          >>= (λ _ s1. returned tt (record s1 { lock = 0 })))
        s
      ≡ returned tt s'
    → (h : Handle) × (mid : State) × (o ≡ returned h mid)
      × (s' ≡ record mid { handle = some h; lock = 0 })
end_of_create s (returned h s1) e = (h, s1, refl, ground arith)
end_of_create s (exited n) e = ground arith
end_of_create s spins e = ground arith
end_of_create s undefined e = ground arith

init-idle :
    (os : Os) (fn : Option (List ℕ)) (user : List ℕ) (n : ℕ) (m : Mem) (errno : ℕ) (s : State)
    → n ≤ 20
    → init os fn user n (idle m errno)
      ≡ ((λ _.
              create os fn
                (copy_config user n)
                (record { mem = m; handle = none; errno = errno; lock = 1 }))
            >>= (λ h s1. returned tt (record s1 { handle = some h }))
            >>= (λ _ s1. returned tt (record s1 { lock = 0 })))
          s
unfolding init
init-idle os fn user n m errno s small = rw (ltb_of_le 20 n small) refl

init-IsMade :
    (os : Os) (fn : Option (List ℕ)) (user : List ℕ) (n : ℕ) (s s' : State)
    → n ≤ 20
    → s.lock ≡ 0
    → s.handle ≡ none
    → init os fn user n s ≡ returned tt s'
    → IsMade os fn user n s s'
init-IsMade os fn user n s s' small l p e =
    let (h, mid, q, r) = end_of_create s _ (
      sym (init-idle os fn user n s.mem s.errno s small)
      ∙ ap (init os fn user n) (sym (idle_eq s p l))
      ∙ e) in
    record {
      handle = h;
      mid = mid;
      small = small;
      no_handle = p;
      lock_free = l;
      creates =
          ap (λ o. create os fn (copy_config user n) (record s { handle = o; lock = 1 })) p ∙ q;
      last = r;
    }

init_of_handle :
    (os : Os) (fn : Option (List ℕ)) (user : List ℕ) (n : ℕ) (s s' : State)
    → n ≤ 20
    → s.lock ≡ 0
    → init os fn user n s ≡ returned tt s'
    → (o : Option Handle) → s.handle ≡ o
    → Runs s outside s' ready
init_of_handle os fn user n s s' small l e none p =
    made-Runs os fn user n s s' (init-IsMade os fn user n s s' small l p e)
init_of_handle os fn user n s s' small l e (some h) p =
    let same : returned tt s ≡ returned tt s' = sym (init_again os fn user n s small p) ∙ e in
    subst (λ t. Runs s outside t ready) (ground (arith, same))
      (moves (enter fn user n small) (moves (outer_set p) arrived))

-- A call of `log2mem_init` with at most 20 bytes of configuration that finds the lock free and
-- returns is a run of the steps of one thread, from outside the library to behind the call.
pub init-Runs :
    (os : Os) (fn : Option (List ℕ)) (user : List ℕ) (n : ℕ) (s s' : State)
    → n ≤ 20
    → s.lock ≡ 0
    → init os fn user n s ≡ returned tt s'
    → Runs s outside s' ready
init-Runs os fn user n s s' small l e = init_of_handle os fn user n s s' small l e s.handle refl

-- The next id is taken, and stores behind the header follow.
row-Runs :
    (s : State) (m : Mem) (lo hi : ℕ)
    → load 4 28 s.mem < 2 ^ 32
    → 256 ≤ lo
    → Frame lo hi (store 4 28 (u32 (load 4 28 s.mem + 1)) s.mem) m
    → Runs s ready (record s { mem = m }) (logging (load 4 28 s.mem))
unfolding fetch_row_id take_row_id
row-Runs s m lo hi word far f =
    let old : sub32 (u32 (load 4 28 s.mem + 1)) 1 ≡ load 4 28 s.mem = omega arith in
    subst (λ n. Runs s ready (record s { mem = m }) (logging n)) old
      (moves take (moves (store_behind {lo = lo} {hi = hi} far f) arrived))

-- What `log2mem_get_row` leaves, told by the steps of one thread.
pub record IsLogged (os : Os) (fn : Option (List ℕ)) (lineno : ℕ) (c : Config) (h : Handle)
    (s : State) (rowid : ℕ) : Type 0 where
  pub after : State
  pub returns : init_row os fn lineno s ≡ returned (some (slot c h (slot_of c rowid))) after
  pub steps : Runs s ready after (logging rowid)

-- `log2mem_get_row`, on a ready process that holds a log, is a run of the steps of one thread: it
-- takes the next id, and then stores in the slot of that id only.
pub init_row-Runs :
    (os : Os) {c : Config} {h : Handle} (s : State) (l : Log) (fn : Option (List ℕ)) (lineno : ℕ)
    → IsReady c h s
    → Represents c h s.mem l
    → l.next < 2 ^ 32
    → IsShort fn
    → IsLogged os fn lineno c h s l.next
init_row-Runs os {c} {h} s l fn lineno r v word short =
    let t = new_row-IsTaken r.set_up os fn lineno s.mem l v word short in
    let far : 256 ≤ slot c h (slot_of c l.next) = omega (
      arith,
      slot_bounds (slot_of c l.next) r.set_up.is_mapped
          (mod-lt l.next (IsPowerOfTwo-pos r.set_up.rounded.rows)),
    ) in
    record {
      after = record s { mem = t.after };
      returns = init_row_returns os s l fn lineno r t;
      steps =
          subst (λ n. Runs s ready (record s { mem = t.after }) (logging n)) v.next
            (row-Runs s t.after _ _ (omega (arith, v.next)) far (
              subst
                (λ n.
                  Frame (slot c h (slot_of c l.next)) (slot c h (slot_of c l.next) + 24 + c.row_len)
                    (store 4 28 (u32 (n + 1)) s.mem) t.after)
                (sym v.next) t.frame));
    }
