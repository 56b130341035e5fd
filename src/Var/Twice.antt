-- ===== src/Var/Twice.antt =====
-- Two operations in a row on a variable: a value that was set is got, and a variable is initialised
-- once.
use log2mem.Prelude.{
  ℕ, ◌^◌, ◌<◌, ◌≡◌, refl, ◌∙◌, ap, ◌==◌, ==_of_eq, Bool-cases, inl, inr, if◌then◌else◌, Option,
  List,
}
use log2mem.Config.{Config}
use log2mem.State.{Handle, State, Os, returned, ◌>>◌}
use log2mem.Ready.{IsReady, IsPowerOfTwo}
use log2mem.Memory.{load}
use log2mem.Ready.Index.{num_vars_at}
use log2mem.Ready.Prepared.{with_element_some, bind_returned, with_handle_set}
use log2mem.Var.{Kind, value_size, var_init, var_set, var_get, init_var}
use log2mem.Var.Cell.{
  Stage, untouched, set_only, initialised, Var, set, initialise, Vars, update, var_index, HasVars,
}
use log2mem.Var.Refine.{
  var_set-HasVars, var_init-HasVars, var_get_lem, var_address_lem, var_index-lt,
}

update-value :
    (vs : Vars) (i j v : ℕ) → (update i (set v) vs j).value ≡ (if i == j then v else (vs j).value)
unfolding update
update-value vs i j v = elim (Bool-cases (i == j)) [ inl p ↦ rw (p) | inr p ↦ rw (p) ]

initialise-stage :
    (v : ℕ) (src : Option (List ℕ)) (x : Var) → (initialise v src x).stage ≡ initialised
initialise-stage v src x = by_stage x.stage x.value x.label
  where
    by_stage :
        (t : Stage) (old : ℕ) (label : List ℕ)
        → (initialise v src (record { stage = t; value = old; label = label })).stage ≡ initialised
    by_stage untouched old label = refl
    by_stage set_only old label = refl
    by_stage initialised old label = refl

update-stage :
    (vs : Vars) (i j v : ℕ) (src : Option (List ℕ))
    → i ≡ j
    → (update i (initialise v src) vs j).stage ≡ initialised
unfolding update
update-stage vs i j v src e = rw (==_of_eq i j e) (initialise-stage v src (vs i))

module _ (k : Kind) (os : Os) {c : Config} {h : Handle} {s : State} {vs : Vars}
    (some_vars : IsPowerOfTwo c.num_vars) (r : IsReady c h s) (e : HasVars k c h s.mem vs) where
  -- Once a variable of a ready process with a power of two of variables is initialised, a further
  -- `…_init` of an id that selects it returns without a change of the process.
  pub var_init_again :
      (id v : ℕ) (src : Option (List ℕ))
      → (vs (var_index c id)).stage ≡ initialised
      → var_init k os id v src s ≡ returned tt s
  unfolding var_init init_var
  var_init_again id v src p =
      with_handle_set os tt _ s r.has_handle
      ∙ with_element_some (load 4 48 s.mem) _ (num_vars_at r.config) some_vars
      ∙ rw (
        var_address_lem k r.set_up some_vars id e.config,
        (e.vars (var_index c id) (var_index-lt k r.set_up some_vars id)).stage,
        p,
      )

module _ (k : Kind) (os os' : Os) {c : Config} {h : Handle} {s : State} {vs : Vars}
    (some_vars : IsPowerOfTwo c.num_vars) (r : IsReady c h s) (e : HasVars k c h s.mem vs) where
  -- After `…_set` of an id to a value of the type, `…_get` of any id gives the value if both
  -- select the same variable and the variable's old value if not, on a ready process with a power
  -- of two of variables.
  pub var_get-var_set :
      (id id' v : ℕ)
      → v < 256 ^ value_size k
      → (s' : State) × ((var_set k os id v >> var_get k os' id') s
          ≡ returned
              (if var_index c id == var_index c id' then v else (vs (var_index c id')).value)
              s')
  var_get-var_set id id' v small =
      let done = var_set-HasVars k os some_vars r e id v small in
      (
        done.0,
        bind_returned (var_set k os id v) _ s done.1
            ∙ var_get_lem k os' some_vars done.2 done.3 id'
            ∙ ap (λ t. returned t done.0) (update-value vs (var_index c id) (var_index c id') v),
      )

  -- Of two initialisations the first counts: on a ready process with a power of two of variables
  -- the second, of an id that selects the same variable, returns in the state that the first left.
  -- The first value is one of the type.
  pub var_init_once :
      (id id' v v' : ℕ) (src src' : Option (List ℕ))
      → v < 256 ^ value_size k
      → var_index c id ≡ var_index c id'
      → (s' : State) × (var_init k os id v src s ≡ returned tt s')
        × ((var_init k os id v src >> var_init k os' id' v' src') s ≡ returned tt s')
  var_init_once id id' v v' src src' small same =
      let done = var_init-HasVars k os some_vars r e id v src small in
      (
        done.0,
        done.1,
        bind_returned (var_init k os id v src) _ s done.1
            ∙ var_init_again k os' some_vars done.2 done.3 id' v' src'
                (update-stage vs (var_index c id) (var_index c id') v src same),
      )
