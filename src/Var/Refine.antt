-- ===== src/Var/Refine.antt =====
-- The operations on the variables of a ready process do what `set` and `initialise` say.
use log2mem.Prelude.{
  ℕ, ◌+◌, ◌^◌, ◌<◌, ◌≡◌, refl, ◌∙◌, ap, inl, ==_of_eq, ==_of_ne, bit_and, Option, List, arith,
}
use mathlib.Core.Path.{subst}
use native.Mathlib.Decide.{ℕ_discrete}
use log2mem.Memory.{Mem, load}
use log2mem.Memory.Frame.{Frame, Frame-widen}
use log2mem.Config.{Config}
use log2mem.State.{Handle, State, Os, returned}
use log2mem.Ready.{IsReady, IsSetUp, HasConfig, IsPowerOfTwo}
use log2mem.Ready.Index.{num_vars_at, HasConfig-Frame}
use log2mem.Ready.Prepared.{with_handle_set, with_element_some}
use log2mem.Element.Index.{element-masked, masked-lt, cells_apart}
use log2mem.Var.{
  Kind, base, size, value_size, flags, var_address, init_var, set_var, var_init, var_set, var_get,
  var_used,
}
use log2mem.Var.Cell.{
  bits, Var, set, initialise, Vars, update, var_index, cell, IsVar, HasVars, members, array_bounds,
}
use log2mem.Var.Write.{IsVar-Frame, marked-Frame, set-IsVar, init-IsVar, initialised_map-Frame}

module _ (k : Kind) {c : Config} {h : Handle} (u : IsSetUp c h)
    (some_vars : IsPowerOfTwo c.num_vars) where
  pub var_index-lt : (id : ℕ) → var_index c id < c.num_vars
  var_index-lt id = masked-lt id some_vars

  pub var_address_lem :
      {m : Mem} (id : ℕ) → HasConfig c m → var_address k id h m ≡ cell k h (var_index c id)
  unfolding var_address
  var_address_lem id e = rw (num_vars_at e) (
      element-masked (base k h) (size k) id some_vars (omega (arith, members k))
        (omega (arith, array_bounds k u.is_mapped)))

  -- A write inside one variable changes that variable only.
  pub update-HasVars :
      {m m' : Mem} {vs : Vars} (i : ℕ) (f : Var → Var)
      → i < c.num_vars
      → Frame (cell k h i) (cell k h i + size k) m m'
      → IsVar k (cell k h i) m' (f (vs i))
      → HasVars k c h m vs
      → HasVars k c h m' (update i f vs)
  unfolding update
  update-HasVars {m' = m'} {vs = vs} i f lt fr own r = record {
    config = HasConfig-Frame (inl (omega (arith, array_bounds k u.is_mapped))) fr r.config;
    vars = λ j p. elim (ℕ_discrete i j) [
      | yes s ↦
          subst (λ t. IsVar k (cell k h t) m' (update i f vs t)) s (rw (==_of_eq i i refl) own)
      | no d ↦ rw (==_of_ne i j d) (
          IsVar-Frame k (cell k h j) (vs j) (omega (arith, cells_apart (base k h) (size k) i j d))
            fr (r.vars j p))
    ];
  }

  pub set_var-HasVars :
      {m : Mem} {vs : Vars} (id v : ℕ)
      → v < 256 ^ value_size k
      → HasVars k c h m vs
      → HasVars k c h (set_var k id v h m) (update (var_index c id) (set v) vs)
  unfolding set_var
  set_var-HasVars {m} {vs} id v small r = rw (var_address_lem id r.config) (
      update-HasVars (var_index c id) (set v) (var_index-lt id)
        (Frame-widen (omega arith) (omega (arith, members k))
          (marked-Frame k (cell k h (var_index c id)) 2 v m))
        (set-IsVar k (cell k h (var_index c id)) v m small (vs (var_index c id))
          (r.vars (var_index c id) (var_index-lt id)))
        r)

  pub init_var-HasVars :
      {m : Mem} {vs : Vars} (id v : ℕ) (src : Option (List ℕ))
      → v < 256 ^ value_size k
      → HasVars k c h m vs
      → HasVars k c h (init_var k id v src h m) (update (var_index c id) (initialise v src) vs)
  unfolding init_var
  init_var-HasVars {m} {vs} id v src small r = rw (var_address_lem id r.config) (
      update-HasVars (var_index c id) (initialise v src) (var_index-lt id)
        (initialised_map-Frame k (cell k h (var_index c id)) v m small src)
        (init-IsVar k (cell k h (var_index c id)) v m small src (vs (var_index c id)).stage _ _
          (r.vars (var_index c id) (var_index-lt id)))
        r)

module _ (k : Kind) (os : Os) {c : Config} {h : Handle} {s : State} {vs : Vars}
    (some_vars : IsPowerOfTwo c.num_vars) (r : IsReady c h s) (e : HasVars k c h s.mem vs) where
  -- `log2mem_var_double_set` and `log2mem_var_int_set` on a ready process with a power of two of
  -- variables return, and give the variable of the id the value, mark it as used and keep its label
  -- and whether it is initialised; no other variable changes.
  pub var_set-HasVars :
      (id v : ℕ)
      → v < 256 ^ value_size k
      → (s' : State) × (var_set k os id v s ≡ returned tt s')
        × IsReady c h s'
        × HasVars k c h s'.mem (update (var_index c id) (set v) vs)
  unfolding var_set
  var_set-HasVars id v small =
      let after = set_var-HasVars k r.set_up some_vars id v small e in
      (
        record s { mem = set_var k id v h s.mem },
        with_handle_set os tt _ s r.has_handle
            ∙ with_element_some (load 4 48 s.mem) _ (num_vars_at r.config) some_vars,
        record { has_handle = r.has_handle; config = after.config; set_up = r.set_up },
        after,
      )

  -- `log2mem_var_double_init` and `log2mem_var_int_init` on a ready process with a power of two of
  -- variables return, and do nothing if the variable of the id has been initialised before; if not,
  -- they give it the value, the label's first 63 bytes if there is one, and the initialised stage.
  -- No other variable changes.
  pub var_init-HasVars :
      (id v : ℕ) (src : Option (List ℕ))
      → v < 256 ^ value_size k
      → (s' : State) × (var_init k os id v src s ≡ returned tt s')
        × IsReady c h s'
        × HasVars k c h s'.mem (update (var_index c id) (initialise v src) vs)
  unfolding var_init
  var_init-HasVars id v src small =
      let after = init_var-HasVars k r.set_up some_vars id v src small e in
      (
        record s { mem = init_var k id v src h s.mem },
        with_handle_set os tt _ s r.has_handle
            ∙ with_element_some (load 4 48 s.mem) _ (num_vars_at r.config) some_vars,
        record { has_handle = r.has_handle; config = after.config; set_up = r.set_up },
        after,
      )

  -- `…_get` on a ready process with a power of two of variables returns the value of the variable of
  -- the id and changes nothing.
  pub var_get_lem : (id : ℕ) → var_get k os id s ≡ returned (vs (var_index c id)).value s
  unfolding var_get
  var_get_lem id =
      with_handle_set os 0 _ s r.has_handle
      ∙ with_element_some (load 4 48 s.mem) _ (num_vars_at r.config) some_vars
      ∙ ap (λ t. returned t s)
          (ap (λ a. load (value_size k) a s.mem) (var_address_lem k r.set_up some_vars id e.config)
            ∙ (e.vars (var_index c id) (var_index-lt k r.set_up some_vars id)).value)

  -- `…_used` on a ready process with a power of two of variables returns the used bit of the stage of
  -- the variable of the id and changes nothing.
  pub var_used_lem :
      (id : ℕ) → var_used k os id s ≡ returned (bit_and (bits (vs (var_index c id)).stage) 2) s
  unfolding var_used
  var_used_lem id =
      with_handle_set os 0 _ s r.has_handle
      ∙ with_element_some (load 4 48 s.mem) _ (num_vars_at r.config) some_vars
      ∙ ap (λ t. returned (bit_and t 2) s)
          (ap (λ a. load 4 (a + flags k) s.mem) (var_address_lem k r.set_up some_vars id e.config)
            ∙ (e.vars (var_index c id) (var_index-lt k r.set_up some_vars id)).stage)
