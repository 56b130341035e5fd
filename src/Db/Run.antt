-- ===== src/Db/Run.antt =====
-- Sequences of calls, from a process that was just initialised on.
use log2mem.Prelude.{ℕ, ◌≡◌, refl, ◌∙◌, arith, List, [], ◌∷◌}
use log2mem.Config.{Config}
use log2mem.State.{Handle, State, returned}
use log2mem.Ready.{IsPowerOfTwo}
use log2mem.Ready.Fresh.{IsFresh}
use log2mem.Ready.Prepared.{bind_returned}
use log2mem.Ring.{empty_log}
use log2mem.Start.{fresh-Represents, fresh-HasBank, fresh-HasVars, no_counts, no_vars}
use log2mem.Db.{Db, Models, Op, call_op, call_ops, apply, apply_all, AreOps}
use log2mem.Db.Step.{call_op-Models}

-- Nothing logged, nothing counted, no variable set.
abbrev pub empty_db : Db
empty_db = record { log = empty_log; bank = no_counts; vars = λ k. no_vars }

-- A process that `log2mem_init` has just initialised holds the empty contents: no row, all counters
-- zero and without labels, all variables untouched.
pub fresh-Models :
    {c : Config} {h : Handle} {n : ℕ} {s : State} → IsFresh c h n s → Models c h s empty_db
fresh-Models f = record {
  ready = f.ready;
  log = fresh-Represents f;
  word = omega arith;
  bank = fresh-HasBank f;
  vars = fresh-HasVars f;
}

-- Any sequence of calls on a ready process that holds some contents returns, and the process then
-- holds what the calls' descriptions make of the contents, one after another. The calls are in the
-- bounds of `IsOp`, and the map has a power of two of variables.
pub call_ops-Models :
    {c : Config} {h : Handle} (s : State) (db : Db) (ops : List Op)
    → IsPowerOfTwo c.num_vars
    → AreOps c ops
    → Models c h s db
    → (s' : State) × (call_ops c h ops s ≡ returned tt s') × Models c h s' (apply_all c ops db)
unfolding call_ops
call_ops-Models s db [] some_vars ok d = (s, refl, d)
call_ops-Models {c} {h} s db (op ∷ ops) some_vars ok d =
    let first = call_op-Models d op some_vars ok.0 in
    let rest = call_ops-Models first.0 (apply c op db) ops some_vars ok.1 first.2 in
    (rest.0, bind_returned (call_op c h op) (λ done. call_ops c h ops) s first.1 ∙ rest.1, rest.2)
