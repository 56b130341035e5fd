-- ===== src/Util/Main/FirstPass.antt =====
-- The first pass over the arguments, without a handle, looks for the file's name; and what `main`
-- does when it finds none or the file cannot be attached.
use log2mem.Prelude.{
  ℕ, zero, suc, ◌<◌, ◌≡◌, refl, ◌∙◌, ap, arith, ◌==◌, Bool-cases, inl, inr, true, Option, none,
  some, List, [], ◌∷◌, ◌++◌, length, codes, drop,
}
use mathlib.Core.Path.{subst}
use log2mem.State.{State, Os, MapResult, returned}
use log2mem.Init.{attach, strerr}
use log2mem.Util.Run.{Run, done, fault, exits, out_of_fuel}
use log2mem.Util.Tool.{Tool, T, pure, call, call_returned, die, bind_done}
use log2mem.Util.Args.{
  value_arg, process_set_var_arg, set_var_double, set_var_int, set_var_string, opt_double, opt_int,
  opt_string, scan_index, skip_char,
}
use log2mem.Util.Named.{set_by_label, split_at_equals}
use log2mem.Util.ByName.{name_arg, set_var_by_name}
use log2mem.Util.Main.{
  Env, Opt, opt_help, opt_summary, opt_counters, opt_rows, opt_vars, opt_all, opt_delim,
  opt_no_delim, opt_terse, opt_version, opt_set_double, opt_set_int, opt_set_string, opt_set_name,
  opt_filename, option_of, Opts, Rest, parse_option, parse_loop, parse_args, delim_arg,
  filename_arg, no_default, no_opts, attach_failed, main,
}
use log2mem.Util.Main.Ends.{EndsWith, step}
use log2mem.Util.Main.Ends.Loop.{Left, parse_option-ends}

-- The tool has still the library's state and the output of `t0`.
abbrev pub Same : {A : Type 0} → Tool → A × Tool → Type 0
Same t0 r = ((r.1).state ≡ t0.state) × ((r.1).out ≡ t0.out)

value_arg-Same :
    (idx : ℕ) (firstarg ptr : List ℕ) (rest : List (List ℕ)) (t : Tool)
    → EndsWith (Same t) (value_arg idx firstarg ptr rest t)
unfolding value_arg die
value_arg-Same idx firstarg [] [] t = tt
value_arg-Same idx firstarg [] (next ∷ rest) t = (refl, refl)
value_arg-Same idx firstarg (x ∷ xs) rest t = elim (Bool-cases (x == b'=')) [
  | inl p ↦ rw p (refl, refl)
  | inr p ↦ rw p tt
]

process-Same :
    (firstarg : List ℕ) (rest : List (List ℕ)) (optionprefix : List ℕ) (t : Tool)
    → EndsWith (Same t) (process_set_var_arg firstarg rest optionprefix t)
unfolding process_set_var_arg
process-Same firstarg rest optionprefix t =
    let scan = scan_index (skip_char b'[' (drop (length optionprefix) firstarg)) 0 in
    value_arg-Same (scan).0 firstarg (skip_char b']' (scan).1) rest t

name_arg-Same :
    (o : Option (List ℕ × List ℕ)) (arg : List ℕ) (rest : List (List ℕ)) (t : Tool)
    → EndsWith (Same t) (name_arg o arg rest t)
unfolding name_arg die
name_arg-Same (some (label, p)) arg rest t = (refl, refl)
name_arg-Same none arg [] t = tt
name_arg-Same none arg (p ∷ rest) t = (refl, refl)

no_default-Same :
    (o : Opts) (p : T (List (List ℕ))) (t : Tool)
    → EndsWith (Same t) (p t)
    → EndsWith (Same t) (no_default o p t)
no_default-Same o p t e = step (Same t) (Same t) p _ t e (λ rest t' q. q)

set_by_index-Same :
    (env : Env) (arg : List ℕ) (rest : List (List ℕ)) (o : Opts) (t : Tool)
    → EndsWith (Same t) (no_default o (set_var_double env.libc env.os none arg rest) t)
      × EndsWith (Same t) (no_default o (set_var_int env.libc env.os none arg rest) t)
      × EndsWith (Same t) (no_default o (set_var_string none arg rest) t)
      × EndsWith (Same t) (no_default o (set_var_by_name env.libc env.size none arg rest) t)
unfolding set_var_double set_var_int set_var_string set_var_by_name set_by_label
set_by_index-Same env arg rest o t = (
  no_default-Same o (set_var_double env.libc env.os none arg rest) t (
      step (Same t) (Same t) (process_set_var_arg arg rest opt_double) _ t
        (process-Same arg rest opt_double t) (λ a t' q. q)),
  no_default-Same o (set_var_int env.libc env.os none arg rest) t (
      step (Same t) (Same t) (process_set_var_arg arg rest opt_int) _ t
        (process-Same arg rest opt_int t) (λ a t' q. q)),
  no_default-Same o (set_var_string none arg rest) t (
      step (Same t) (Same t) (process_set_var_arg arg rest opt_string) _ t
        (process-Same arg rest opt_string t) (λ a t' q. q)),
  no_default-Same o (set_var_by_name env.libc env.size none arg rest) t (
      step (Same t) (Same t) (name_arg (split_at_equals (drop 2 arg)) arg rest) _ t
        (name_arg-Same (split_at_equals (drop 2 arg)) arg rest t) (λ a t' q. q)),
)

parse_option-Same :
    (env : Env) (opt : Opt) (arg : List ℕ) (rest : List (List ℕ)) (o : Opts) (t : Tool)
    → EndsWith (Same t) (parse_option env none opt arg rest o t)
unfolding parse_option delim_arg filename_arg die
parse_option-Same env opt_help arg rest o t = tt
parse_option-Same env opt_summary arg rest o t = (refl, refl)
parse_option-Same env opt_counters arg rest o t = (refl, refl)
parse_option-Same env opt_rows arg rest o t = (refl, refl)
parse_option-Same env opt_vars arg rest o t = (refl, refl)
parse_option-Same env opt_all arg rest o t = (refl, refl)
parse_option-Same env opt_delim arg [] o t = tt
parse_option-Same env opt_delim arg (d ∷ rest) o t = (refl, refl)
parse_option-Same env opt_no_delim arg rest o t = (refl, refl)
parse_option-Same env opt_terse arg rest o t = (refl, refl)
parse_option-Same env opt_version arg rest o t = tt
parse_option-Same env opt_set_double arg rest o t = (set_by_index-Same env arg rest o t).0
parse_option-Same env opt_set_int arg rest o t = (set_by_index-Same env arg rest o t).1
parse_option-Same env opt_set_string arg rest o t = (set_by_index-Same env arg rest o t).2
parse_option-Same env opt_set_name arg rest o t = (set_by_index-Same env arg rest o t).3
parse_option-Same env opt_filename arg rest o t = by_name o.filename
  where
    by_name :
        (name : Option (List ℕ))
        → EndsWith (Same t) (
            (elim name as (λ x. T Rest) [
              | none ↦ pure (record o { filename = some arg }, rest)
              | some other ↦ die (codes "unexpected argument: ") arg
            ])
              t)
    by_name none = (refl, refl)
    by_name (some other) = tt

since :
    {A : Type 0} (t t' : Tool) (r : Run (A × Tool))
    → (t'.state ≡ t.state) × (t'.out ≡ t.out)
    → EndsWith (Same t') r
    → EndsWith (Same t) r
since t t' (done a) s e = (e.0 ∙ s.0, e.1 ∙ s.1)
since t t' fault s e = tt
since t t' (exits out status) s e = tt
since t t' out_of_fuel s e = absurd e

both :
    {A : Type 0} (P Q : A → Type 0) (r : Run A)
    → EndsWith P r
    → EndsWith Q r
    → EndsWith (λ a. P a × Q a) r
both P Q (done a) p q = (p, q)
both P Q fault p q = tt
both P Q (exits out status) p q = tt
both P Q out_of_fuel p q = absurd p

parse_loop-Same :
    (env : Env) (fuel : ℕ) (args : List (List ℕ)) (o : Opts) (t : Tool)
    → length args < fuel
    → EndsWith (Same t) (parse_loop env fuel none args o t)
unfolding parse_loop
parse_loop-Same env zero args o t few = absurd (omega arith)
parse_loop-Same env (suc fuel) [] o t few = (refl, refl)
parse_loop-Same env (suc fuel) (arg ∷ rest) o t few =
    step (λ r. Left none (length rest) r × Same t r) (Same t)
      (parse_option env none (option_of arg) arg rest o) _ t
      (both (Left none (length rest)) (Same t) (parse_option env none (option_of arg) arg rest o t)
        (parse_option-ends env none (option_of arg) arg rest o t tt)
        (parse_option-Same env (option_of arg) arg rest o t))
      (λ r t' q.
        since t t' (parse_loop env fuel none r.1 r.0 t') q.1
          (parse_loop-Same env fuel r.1 r.0 t' (omega (arith, (q.0).0))))

-- The first pass of `parse_args`, which is run without a handle, always ends: by `exit`, by `die`, or
-- with a result, and then it has set no variable, printed nothing, and left the library's state as it
-- was.
pub first_pass-Same :
    (env : Env) (fuel : ℕ) (args : List (List ℕ)) (t : Tool)
    → EndsWith (Same t) (parse_args env fuel true none args t)
unfolding parse_args
first_pass-Same env fuel args t =
    step (Same t) (Same t) (parse_loop env (suc (length args)) none args no_opts) _ t
      (parse_loop-Same env (suc (length args)) args no_opts t (omega arith)) (λ o t' q. q)

no_error : (errno : ℕ) → errno ≡ 0 → strerr errno ≡ codes "no error"
unfolding strerr
no_error errno e = rw (e) refl

attach_missing :
    (os : Os) (name : List ℕ) (s : State)
    → os.attach_map name ≡ MapResult.stat_failed
    → attach os name s ≡ returned none s
unfolding attach
attach_missing os name s e = rw (attach, e) refl

-- If the first pass finds a file's name and there is no such file, `main` returns 1 and has printed
-- that it failed to attach, with the error "no error" if no error had been recorded before; it has
-- left the library's state as it was.
pub main_missing_file :
    (env : Env) (fuel : ℕ) (args : List (List ℕ)) (name : List ℕ) (t t1 : Tool)
    → parse_args env fuel true none args t ≡ done (some name, t1)
    → env.os.attach_map name ≡ MapResult.stat_failed
    → t.state.errno ≡ 0
    → (t' : Tool) × (main env fuel args t ≡ done (1, t'))
      × (t'.state ≡ t.state)
      × (t'.out
          ≡ t.out
            ++ (codes "failed to attach to memmap file '"
                ++ name
                ++ codes "', error: "
                ++ codes "no error"
                ++ codes "\n"))
unfolding main attach_failed
main_missing_file env fuel args name t t1 first missing clean =
    let same : Same t (some name, t1) =
      subst (EndsWith (Same t)) first (first_pass-Same env fuel args t) in
    let message : List ℕ → List ℕ = λ (e : List ℕ).
      codes "failed to attach to memmap file '" ++ name ++ codes "', error: " ++ e ++ codes "\n" in
    (
      record t1 { out = t1.out ++ message (strerr t1.state.errno) },
      bind_done (parse_args env fuel true none args) _ t first
          ∙ bind_done (call (attach env.os name)) _ t1
              (call_returned (attach env.os name) t1 (attach_missing env.os name t1.state missing)),
      same.0,
      ap (λ (e : List ℕ). t1.out ++ message e)
            (no_error t1.state.errno (ap (λ (s : State). s.errno) same.0 ∙ clean))
          ∙ ap (λ (o : List ℕ). o ++ message (codes "no error")) same.1,
    )
