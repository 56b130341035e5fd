-- ===== src/Util/Main/SetIndex.antt =====
-- An argument `--double[I]=V` or `--int[I]=V` sets the variable of that index.
use log2mem.Prelude.{ℕ, ◌^◌, ◌<◌, ◌≡◌, refl, ◌∙◌, Bool, false, Option, some, List, ◌++◌}
use log2mem.Config.{Config}
use log2mem.State.{Handle, State, returned}
use log2mem.Ready.{IsReady, IsPowerOfTwo}
use log2mem.Var.{Kind, double_var, int_var, value_size, var_set, var_double_set, var_int_set}
use log2mem.Var.Cell.{Vars, HasVars, update, var_index, set}
use log2mem.Var.Refine.{var_set-HasVars}
use log2mem.Util.Run.{done}
use log2mem.Util.Format.{Libc}
use log2mem.Util.Tool.{Tool, T, call, call_returned, bind_done, pure, ◌>>=◌}
use log2mem.Util.Args.{
  opt_double, opt_int, process_set_var_arg, scanned, set_var_double, set_var_int,
}
use log2mem.Util.Args.Index.{
  Form, index_then, value_then, value_rest, process_set_var_arg-index_then,
}
use log2mem.Util.Named.{scan_value}
use log2mem.Util.Main.{Env, Opts, option_of, parse_option}

-- The option's name for a kind of variable.
abbrev pub prefix_of : Kind → List ℕ
prefix_of double_var = opt_double
prefix_of int_var = opt_int

abbrev set_var_of : Kind → Env → Option Handle → List ℕ → List (List ℕ) → T (List (List ℕ))
set_var_of double_var env = set_var_double env.libc env.os
set_var_of int_var env = set_var_int env.libc env.os

-- What is left of the arguments, and the options behind a variable that was set.
abbrev pub without_default : Opts → Opts
without_default o = record o { defaultshow = false }

takes_branch :
    (k : Kind) (env : Env) (handle : Option Handle) (tail : List ℕ) (rest : List (List ℕ))
    (o : Opts) (t : Tool)
    → parse_option env handle (option_of (prefix_of k ++ tail)) (prefix_of k ++ tail) rest o t
      ≡ (set_var_of k env handle (prefix_of k ++ tail) rest >>= λ rest'.
            pure (without_default o, rest'))
          t
unfolding parse_option option_of log2mem.Util.Main.long_option log2mem.Util.Format.starts_with
    log2mem.Util.Format.text_eq
takes_branch double_var env handle tail rest o t = refl
takes_branch int_var env handle tail rest o t = refl

scanned_number : (p : Option ℕ) (t : Tool) {x : ℕ} → p ≡ some x → scanned p t ≡ done (x, t)
unfolding scanned
scanned_number p t e = rw (e) refl

-- The three steps behind the option's name.
sets :
    (k : Kind) (env : Env) (h : Handle) (t : Tool) (form : Form) (inline : Bool) (i : ℕ)
    (v : List ℕ) (x : ℕ) (rest : List (List ℕ))
    → i < 2 ^ 32
    → scan_value env.libc k v ≡ some x
    → (s' : State) → var_set k env.os i x t.state ≡ returned tt s'
    → set_var_of k env
        (some h)
        (prefix_of k ++ index_then form i (value_then inline v))
        (value_rest inline v rest)
        t
      ≡ done (rest, record t { state = s' })
unfolding set_var_double set_var_int scan_value
sets double_var env h t form inline i v x rest small number s' returns =
    bind_done
      (process_set_var_arg (opt_double ++ index_then form i (value_then inline v))
        (value_rest inline v rest) opt_double)
      _ t (process_set_var_arg-index_then form inline opt_double i v rest t small)
    ∙ bind_done (scanned (env.libc.scan_double v)) _ t
        (scanned_number (env.libc.scan_double v) t number)
    ∙ bind_done (call (var_double_set env.os i x)) _ t
        (call_returned (var_double_set env.os i x) t returns)
sets int_var env h t form inline i v x rest small number s' returns =
    bind_done
      (process_set_var_arg (opt_int ++ index_then form i (value_then inline v))
        (value_rest inline v rest) opt_int)
      _ t (process_set_var_arg-index_then form inline opt_int i v rest t small)
    ∙ bind_done (scanned (env.libc.scan_int v)) _ t (scanned_number (env.libc.scan_int v) t number)
    ∙ bind_done (call (var_int_set env.os i x)) _ t
        (call_returned (var_int_set env.os i x) t returns)

module _ (k : Kind) (env : Env) {c : Config} {h : Handle} {vs : Vars} (t : Tool)
    (some_vars : IsPowerOfTwo c.num_vars) (r : IsReady c h t.state)
    (e : HasVars k c h t.state.mem vs) (form : Form) (inline : Bool) (i : ℕ) (small : i < 2 ^ 32)
    (v : List ℕ) (x : ℕ) (number : scan_value env.libc k v ≡ some x) (fits : x < 256 ^ value_size k)
    (rest : List (List ℕ)) where
  abbrev arg : List ℕ
  arg = prefix_of k ++ index_then form i (value_then inline v)

  -- An argument that names a kind of variable, an index below 2 ^ 32 and a value, in any of the ways
  -- of writing it, makes the tool set the variable of that index to the number that `sscanf` finds in
  -- the value, mark it as used, and change no other variable of the kind; the arguments behind it are
  -- left, and nothing is shown by default. The map is ready and has a power of two of variables, and
  -- the number fits the variable.
  pub parse_option-set_index :
      (o : Opts)
      → (t' : Tool) × (parse_option env (some h) (option_of arg) arg (value_rest inline v rest) o t
          ≡ done ((without_default o, rest), t'))
        × IsReady c h t'.state
        × HasVars k c h t'.state.mem (update (var_index c i) (set x) vs)
  parse_option-set_index o =
      let (s', returns, ready, vars) = var_set-HasVars k env.os some_vars r e i x fits in
      (
        record t { state = s' },
        takes_branch k env (some h) (index_then form i (value_then inline v))
              (value_rest inline v rest) o t
            ∙ bind_done (set_var_of k env (some h) arg (value_rest inline v rest)) _ t
                (sets k env h t form inline i v x rest small number s' returns),
        ready,
        vars,
      )
