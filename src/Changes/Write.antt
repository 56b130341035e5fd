-- ===== src/Changes/Write.antt =====
-- The operations on the counters and on the variables write in their own sections only.
use log2mem.Prelude.{ℕ, ◌+◌, ◌^◌, ◌<◌, inl, inr, arith, Option, List, u32}
use log2mem.Memory.{Mem, load}
use log2mem.Memory.Frame.{Frame-widen, store-Frame}
use log2mem.Config.{Config}
use log2mem.State.{Handle}
use log2mem.Ready.{IsSetUp, HasConfig, IsPowerOfTwo}
use log2mem.Changes.{Changes, change, none_left, InCounters, InArray}
use log2mem.Changes.Keep.{array_end}
use log2mem.Element.{strncpy}
use log2mem.Element.Index.{cells-le, strncpy-Frame}
use log2mem.Counter.{add_to_counter, set_label}
use log2mem.Counter.Bank.{index, counter_cell, label_cell}
use log2mem.Counter.Refine.{counter-Bounds, counter_address_lem, label_address_lem, index-lt}
use log2mem.Var.{Kind, base, size, value_size, set_var, init_var}
use log2mem.Var.Cell.{var_index, cell, members}
use log2mem.Var.Write.{marked-Frame, initialised_map-Frame}
use log2mem.Var.Refine.{var_index-lt, var_address_lem}

module _ {c : Config} {h : Handle} (u : IsSetUp c h) {m : Mem} (e : HasConfig c m) where
  pub add-Changes : (id v : ℕ) → Changes (InCounters h) m (add_to_counter id v h m)
  unfolding add_to_counter
  add-Changes id v =
      let a : ℕ = counter_cell h (index c id) in
      rw (counter_address_lem u id e) (
        change a (a + 4) (inl (omega (arith, counter-Bounds u (index c id) (index-lt u id))))
          (store-Frame 4 a (u32 (load 4 a m + v)) m) none_left)

  pub label-Changes : (id : ℕ) (src : List ℕ) → Changes (InCounters h) m (set_label id src h m)
  unfolding set_label
  label-Changes id src =
      let here = counter-Bounds u (index c id) (index-lt u id) in
      let a : ℕ = counter_cell h (index c id) + 4 in
      let t : ℕ = label_cell h (index c id) in
      rw (counter_address_lem u id e, label_address_lem u id e)
        (change t (t + 63) (inr (omega (arith, here))) (strncpy-Frame t 63 src m) (
          change a (a + 4) (inl (omega (arith, here))) (store-Frame 4 a 1 (strncpy t 63 src m))
            none_left))

  module _ (k : Kind) (some_vars : IsPowerOfTwo c.num_vars) where
    in_array :
        (id : ℕ)
        → InArray
            (base k h)
            (array_end k c h)
            (cell k h (var_index c id))
            (cell k h (var_index c id) + size k)
    in_array id =
        omega (arith, cells-le (var_index c id) c.num_vars (size k) (var_index-lt k u some_vars id))

    pub set-Changes :
        (id v : ℕ) → Changes (InArray (base k h) (array_end k c h)) m (set_var k id v h m)
    unfolding set_var
    set-Changes id v =
        let a : ℕ = cell k h (var_index c id) in
        rw (var_address_lem k u some_vars id e) (
          change a (a + size k) (in_array id)
            (Frame-widen (omega arith) (omega (arith, members k)) (marked-Frame k a 2 v m))
            none_left)

    pub init-Changes :
        (id v : ℕ) (src : Option (List ℕ))
        → v < 256 ^ value_size k
        → Changes (InArray (base k h) (array_end k c h)) m (init_var k id v src h m)
    unfolding init_var
    init-Changes id v src small =
        let a : ℕ = cell k h (var_index c id) in
        rw (var_address_lem k u some_vars id e)
          (change a (a + size k) (in_array id) (initialised_map-Frame k a v m small src) none_left)
