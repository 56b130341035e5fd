-- ===== src/Util/Main/Ends/Loop.antt =====
-- The options, the loop over the arguments, and that it has rounds enough.
use log2mem.Prelude.{
  ℕ, zero, suc, ◌≤◌, ◌<◌, ◌==◌, ◌≡◌, Bool, true, false, if◌then◌else◌, arith, Option, none, some,
  List, [], ◌∷◌, length, codes, drop,
}
use log2mem.State.{Handle, State, Os, M, returned, undefined}
use log2mem.Memory.{load}
use log2mem.Ready.Prepared.{with_handle_set}
use log2mem.Var.{Kind, double_var, int_var, set_var, var_set}
use log2mem.Util.Format.{Globals}
use log2mem.Util.Tool.{Tool, T, pure, call, die, ◌>>=◌, ◌>>◌}
use log2mem.Util.Args.{
  SetArg, process_set_var_arg, scanned, set_var_double, set_var_int, set_var_string, opt_double,
  opt_int, opt_string, scan_index, skip_char,
}
use log2mem.Util.Named.{set_by_label, split_at_equals}
use log2mem.Util.ByName.{NameArg, name_arg, set_var_by_name}
use log2mem.Util.Main.{
  Env, Opt, opt_help, opt_summary, opt_counters, opt_rows, opt_vars, opt_all, opt_delim,
  opt_no_delim, opt_terse, opt_version, opt_set_double, opt_set_int, opt_set_string, opt_set_name,
  opt_filename, option_of, Opts, Rest, parse_option, parse_loop, delim_arg, filename_arg,
  no_default,
}
use log2mem.Util.Main.Ends.{EndsWith, IsFine, step, Leaves, set_by_label-ends, value_arg-ends}

process-ends :
    (handle : Option Handle) (firstarg : List ℕ) (rest : List (List ℕ)) (optionprefix : List ℕ)
    (t : Tool)
    → IsFine handle t
    → EndsWith
        (λ (r : SetArg × Tool). (length (r.0).rest ≤ length rest) × IsFine handle r.1)
        (process_set_var_arg firstarg rest optionprefix t)
unfolding process_set_var_arg
process-ends handle firstarg rest optionprefix t fine =
    let scan = scan_index (skip_char b'[' (drop (length optionprefix) firstarg)) 0 in
    value_arg-ends handle (scan).0 firstarg (skip_char b']' (scan).1) rest t fine

scanned-ends :
    (handle : Option Handle) (p : Option ℕ) (t : Tool)
    → IsFine handle t
    → EndsWith (λ (r : ℕ × Tool). IsFine handle r.1) (scanned p t)
unfolding scanned
scanned-ends handle none t fine = tt
scanned-ends handle (some v) t fine = fine

-- A call that returns or does what C leaves undefined.
call-ends :
    (Q : Unit {0} × Tool → Type 0) (f : M (Unit {0})) (t : Tool) (s : State) (outside : Bool)
    → f t.state ≡ (if outside then undefined else returned tt s)
    → Q (tt, record t { state = s })
    → EndsWith Q (call f t)
unfolding call
call-ends Q f t s true e fine = rw (call, e) tt
call-ends Q f t s false e fine = rw (call, e) fine

var_set-ends :
    (k : Kind) (os : Os) (id v : ℕ) (h : Handle) (t : Tool)
    → IsFine (some h) t
    → EndsWith (λ (r : Unit {0} × Tool). IsFine (some h) r.1) (call (var_set k os id v) t)
unfolding var_set
var_set-ends k os id v h t fine =
    call-ends (λ r. IsFine (some h) r.1) (var_set k os id v) t
      (record t.state { mem = set_var k id v h t.state.mem }) (load 4 48 t.state.mem == 0)
      (with_handle_set os tt _ t.state fine) fine

name_arg-ends :
    (handle : Option Handle) (o : Option (List ℕ × List ℕ)) (arg : List ℕ) (rest : List (List ℕ))
    (t : Tool)
    → IsFine handle t
    → EndsWith
        (λ (r : NameArg × Tool). (length (r.0).rest ≤ length rest) × IsFine handle r.1)
        (name_arg o arg rest t)
unfolding name_arg die
name_arg-ends handle (some (label, p)) arg rest t fine = (omega arith, fine)
name_arg-ends handle none arg [] t fine = tt
name_arg-ends handle none arg (p ∷ rest) t fine = (omega arith, fine)

module _ (env : Env) (handle : Option Handle) where
  set_var_string-ends :
      (arg : List ℕ) (rest : List (List ℕ)) (t : Tool)
      → IsFine handle t
      → EndsWith (Leaves handle (length rest)) (set_var_string handle arg rest t)
  unfolding set_var_string
  set_var_string-ends arg rest t fine =
      step (λ r. (length (r.0).rest ≤ length rest) × IsFine handle r.1)
        (Leaves handle (length rest)) (process_set_var_arg arg rest opt_string) _ t
        (process-ends handle arg rest opt_string t fine) (λ a t' q. q)

  set_var_by_name-ends :
      (arg : List ℕ) (rest : List (List ℕ)) (t : Tool)
      → IsFine handle t
      → EndsWith (Leaves handle (length rest)) (set_var_by_name env.libc env.size handle arg rest t)
  unfolding set_var_by_name
  set_var_by_name-ends arg rest t fine =
      step (λ r. (length (r.0).rest ≤ length rest) × IsFine handle r.1)
        (Leaves handle (length rest)) (name_arg (split_at_equals (drop 2 arg)) arg rest) _ t
        (name_arg-ends handle (split_at_equals (drop 2 arg)) arg rest t fine)
        (λ a t1 q.
          step (λ r. IsFine handle r.1) (Leaves handle (length rest))
            (set_by_label env.libc env.size handle a.label a.value) _ t1
            (set_by_label-ends env.libc env.size handle a.label a.value t1 q.1)
            (λ u t2 still. (q.0, still)))

  -- What stands behind `if (!handle) return` in the functions that set a variable of a kind.
  set_scanned-ends :
      (k : Kind) (value : Option ℕ) (h : Handle) (idx : ℕ) (rest : List (List ℕ)) (n : ℕ) (t : Tool)
      → length rest ≤ n
      → IsFine (some h) t
      → EndsWith
          (Leaves (some h) n)
          ((scanned value >>= λ val. call (var_set k env.os idx val) >> pure rest) t)
  set_scanned-ends k value h idx rest n t few fine =
      step (λ r. IsFine (some h) r.1) (Leaves (some h) n) (scanned value) _ t
        (scanned-ends (some h) value t fine)
        (λ val t1 q.
          step (λ r. IsFine (some h) r.1) (Leaves (some h) n) (call (var_set k env.os idx val)) _ t1
            (var_set-ends k env.os idx val h t1 q) (λ u t2 still. (few, still)))

set_var_double-ends :
    (env : Env) (handle : Option Handle) (arg : List ℕ) (rest : List (List ℕ)) (t : Tool)
    → IsFine handle t
    → EndsWith (Leaves handle (length rest)) (set_var_double env.libc env.os handle arg rest t)
unfolding set_var_double
set_var_double-ends env none arg rest t fine =
    step (λ r. (length (r.0).rest ≤ length rest) × IsFine none r.1) (Leaves none (length rest))
      (process_set_var_arg arg rest opt_double) _ t (process-ends none arg rest opt_double t fine)
      (λ a t' q. q)
set_var_double-ends env (some h) arg rest t fine =
    step (λ r. (length (r.0).rest ≤ length rest) × IsFine (some h) r.1)
      (Leaves (some h) (length rest)) (process_set_var_arg arg rest opt_double) _ t
      (process-ends (some h) arg rest opt_double t fine)
      (λ a t' q.
        set_scanned-ends env (some h) double_var (env.libc.scan_double a.value) h a.idx a.rest
          (length rest) t' q.0 q.1)

set_var_int-ends :
    (env : Env) (handle : Option Handle) (arg : List ℕ) (rest : List (List ℕ)) (t : Tool)
    → IsFine handle t
    → EndsWith (Leaves handle (length rest)) (set_var_int env.libc env.os handle arg rest t)
unfolding set_var_int
set_var_int-ends env none arg rest t fine =
    step (λ r. (length (r.0).rest ≤ length rest) × IsFine none r.1) (Leaves none (length rest))
      (process_set_var_arg arg rest opt_int) _ t (process-ends none arg rest opt_int t fine)
      (λ a t' q. q)
set_var_int-ends env (some h) arg rest t fine =
    step (λ r. (length (r.0).rest ≤ length rest) × IsFine (some h) r.1)
      (Leaves (some h) (length rest)) (process_set_var_arg arg rest opt_int) _ t
      (process-ends (some h) arg rest opt_int t fine)
      (λ a t' q.
        set_scanned-ends env (some h) int_var (env.libc.scan_int a.value) h a.idx a.rest
          (length rest) t' q.0 q.1)

keep-IsFine :
    (handle : Option Handle) (t : Tool) (g : Globals)
    → IsFine handle t
    → IsFine handle (record t { globals = g })
keep-IsFine none t g fine = fine
keep-IsFine (some h) t g fine = fine

-- What a round leaves.
abbrev pub Left : Option Handle → ℕ → Rest × Tool → Type 0
Left handle n r = (length (r.0).1 ≤ n) × IsFine handle r.1

no_default-ends :
    (handle : Option Handle) (o : Opts) (p : T (List (List ℕ))) (n : ℕ) (t : Tool)
    → EndsWith (Leaves handle n) (p t)
    → EndsWith (Left handle n) (no_default o p t)
no_default-ends handle o p n t e = step (Leaves handle n) (Left handle n) p _ t e (λ rest t' q. q)

pub parse_option-ends :
    (env : Env) (handle : Option Handle) (opt : Opt) (arg : List ℕ) (rest : List (List ℕ))
    (o : Opts) (t : Tool)
    → IsFine handle t
    → EndsWith (Left handle (length rest)) (parse_option env handle opt arg rest o t)
unfolding parse_option delim_arg filename_arg die
parse_option-ends env handle opt_help arg rest o t fine = tt
parse_option-ends env handle opt_summary arg rest o t fine = (omega arith, fine)
parse_option-ends env handle opt_counters arg rest o t fine = (omega arith, fine)
parse_option-ends env handle opt_rows arg rest o t fine = (omega arith, fine)
parse_option-ends env handle opt_vars arg rest o t fine = (omega arith, fine)
parse_option-ends env handle opt_all arg rest o t fine = (omega arith, fine)
parse_option-ends env handle opt_delim arg [] o t fine = tt
parse_option-ends env handle opt_delim arg (d ∷ rest) o t fine =
    (omega arith, keep-IsFine handle t _ fine)
parse_option-ends env handle opt_no_delim arg rest o t fine =
    (omega arith, keep-IsFine handle t _ fine)
parse_option-ends env handle opt_terse arg rest o t fine =
    (omega arith, keep-IsFine handle t _ fine)
parse_option-ends env handle opt_version arg rest o t fine = tt
parse_option-ends env handle opt_set_double arg rest o t fine =
    no_default-ends handle o (set_var_double env.libc env.os handle arg rest) (length rest) t
      (set_var_double-ends env handle arg rest t fine)
parse_option-ends env handle opt_set_int arg rest o t fine =
    no_default-ends handle o (set_var_int env.libc env.os handle arg rest) (length rest) t
      (set_var_int-ends env handle arg rest t fine)
parse_option-ends env handle opt_set_string arg rest o t fine =
    no_default-ends handle o (set_var_string handle arg rest) (length rest) t
      (set_var_string-ends env handle arg rest t fine)
parse_option-ends env handle opt_set_name arg rest o t fine =
    no_default-ends handle o (set_var_by_name env.libc env.size handle arg rest) (length rest) t
      (set_var_by_name-ends env handle arg rest t fine)
parse_option-ends env handle opt_filename arg rest o t fine = by_name o.filename
  where
    by_name :
        (name : Option (List ℕ))
        → EndsWith (Left handle (length rest)) (
            (elim name as (λ x. T Rest) [
              | none ↦ pure (record o { filename = some arg }, rest)
              | some other ↦ die (codes "unexpected argument: ") arg
            ])
              t)
    by_name none = (omega arith, fine)
    by_name (some other) = tt

-- The loop of `parse_args` over the arguments ends, in the pass without a handle and in the pass with
-- the handle that the library has, whatever the arguments are: a round more than there are arguments
-- is enough, though an option may take the next argument as well. The handle is then still the
-- library's.
pub parse_loop-ends :
    (env : Env) (handle : Option Handle) (fuel : ℕ) (args : List (List ℕ)) (o : Opts) (t : Tool)
    → IsFine handle t
    → length args < fuel
    → EndsWith (λ r. IsFine handle r.1) (parse_loop env fuel handle args o t)
unfolding parse_loop
parse_loop-ends env handle zero args o t fine few = absurd (omega arith)
parse_loop-ends env handle (suc fuel) [] o t fine few = fine
parse_loop-ends env handle (suc fuel) (arg ∷ rest) o t fine few =
    step (Left handle (length rest)) (λ r. IsFine handle r.1)
      (parse_option env handle (option_of arg) arg rest o) _ t
      (parse_option-ends env handle (option_of arg) arg rest o t fine)
      (λ r t' q. parse_loop-ends env handle fuel r.1 r.0 t' q.1 (omega (arith, q.0)))
