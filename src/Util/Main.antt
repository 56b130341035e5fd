-- ===== src/Util/Main.antt =====
-- The command line of util/log2memutil.c: `help`, `parse_args` and `main`.
pub mod Help
pub mod Dump
pub mod SetIndex
pub mod Ends
pub mod FirstPass
use log2mem.Prelude.{
  ℕ, zero, suc, ◌+◌, ◌-◌, ◌==◌, ltb, bit_and, bit_or, if◌then◌else◌, ◌&&◌, Bool, true, false,
  Option, none, some, List, [], ◌∷◌, ◌++◌, length, codes,
}
use log2mem.State.{Handle, Os}
use log2mem.Init.{attach, strerr}
use log2mem.Util.Run.{Run, done, out_of_fuel}
use log2mem.Util.Format.{Libc, Globals, text_eq, starts_with}
use log2mem.Util.Tool.{Tool, T, pure, print, prints, exit, die, call, ◌>>=◌, ◌>>◌}
use log2mem.Util.Args.{opt_double, opt_int, opt_string, set_var_double, set_var_int, set_var_string}
use log2mem.Util.ByName.{set_var_by_name}
use log2mem.Util.Summary.{print_summary}
use log2mem.Util.Sections.{print_counters, print_vars}
use log2mem.Util.Rows.{print_rows}
use log2mem.Util.Main.Help.{help_text, version_text}

-- The branches of the loop over the arguments.
pub data Opt : Type 0 where
  opt_help : Opt
  opt_summary : Opt
  opt_counters : Opt
  opt_rows : Opt
  opt_vars : Opt
  opt_all : Opt
  opt_delim : Opt
  opt_no_delim : Opt
  opt_terse : Opt
  opt_version : Opt
  opt_set_double : Opt
  opt_set_int : Opt
  opt_set_string : Opt
  opt_set_name : Opt
  opt_filename : Opt

-- The branch that an argument takes.
unfoldable pub long_option : List ℕ → Opt
long_option arg =
    if starts_with opt_double arg
    then opt_set_double
    else if starts_with opt_int arg
    then opt_set_int
    else if starts_with opt_string arg
    then opt_set_string
    else if starts_with (codes "--") arg && ltb 2 (length arg)
    then opt_set_name
    else opt_filename

unfoldable pub option_of : List ℕ → Opt
option_of arg =
    if text_eq arg (codes "-h")
    then opt_help
    else if text_eq arg (codes "--help")
    then opt_help
    else if text_eq arg (codes "-s")
    then opt_summary
    else if text_eq arg (codes "-c")
    then opt_counters
    else if text_eq arg (codes "-r")
    then opt_rows
    else if text_eq arg (codes "-v")
    then opt_vars
    else if text_eq arg (codes "-a")
    then opt_all
    else if text_eq arg (codes "-F")
    then opt_delim
    else if text_eq arg (codes "-z")
    then opt_no_delim
    else if text_eq arg (codes "-t")
    then opt_terse
    else if text_eq arg (codes "--version")
    then opt_version
    else long_option arg

-- `filename`, `defaultshow` and `toshow`.
pub record Opts : Type 0 where
  pub filename : Option (List ℕ)
  pub defaultshow : Bool
  pub toshow : ℕ

-- `enum showbits`
abbrev pub e_summary : ℕ
e_summary = 1

abbrev pub e_counters : ℕ
e_counters = 2

abbrev pub e_rows : ℕ
e_rows = 4

abbrev pub e_vars : ℕ
e_vars = 8

abbrev pub Rest : Type 0
Rest = Opts × List (List ℕ)

abbrev pub show_also : ℕ → Opts → List (List ℕ) → T Rest
show_also bits o rest = pure (record o { toshow = bit_or o.toshow bits }, rest)

-- `defaultshow = 0` behind a function that sets a variable.
abbrev pub no_default : Opts → T (List (List ℕ)) → T Rest
no_default o p = p >>= λ rest. pure (record o { defaultshow = false }, rest)

-- The option of the loop's round changes the globals.
abbrev pub change_globals : (Globals → Globals) → Opts → List (List ℕ) → T Rest
change_globals f o rest t = done ((o, rest), record t { globals = f t.globals })

unfoldable pub delim_arg : Opts → List (List ℕ) → T Rest
delim_arg o [] = die (codes "missing argument to -F") []
delim_arg o (d ∷ rest) =
    change_globals (λ g. record { delim = d; showdelim = true; terse = g.terse }) o rest

unfoldable pub filename_arg : Opts → List ℕ → List (List ℕ) → T Rest
filename_arg o arg rest = elim o.filename [
  | none ↦ pure (record o { filename = some arg }, rest)
  | some other ↦ die (codes "unexpected argument: ") arg
]

-- What the tool is given: the C library, the system, and the size of the map.
pub record Env : Type 0 where
  pub libc : Libc
  pub os : Os
  pub size : ℕ

-- One round of the loop: the branch for `arg`, and what it leaves of the arguments behind it.
unfoldable pub parse_option : Env → Option Handle → Opt → List ℕ → List (List ℕ) → Opts → T Rest
parse_option env handle opt_help arg rest o = print help_text >> exit 0
parse_option env handle opt_summary arg rest o = show_also e_summary o rest
parse_option env handle opt_counters arg rest o = show_also e_counters o rest
parse_option env handle opt_rows arg rest o = show_also e_rows o rest
parse_option env handle opt_vars arg rest o = show_also e_vars o rest
parse_option env handle opt_all arg rest o = show_also 0xFFFFFFFE o rest
parse_option env handle opt_delim arg rest o = delim_arg o rest
parse_option env handle opt_no_delim arg rest o =
    change_globals (λ g. record g { showdelim = false }) o rest
parse_option env handle opt_terse arg rest o =
    change_globals (λ g. record g { terse = true }) o rest
parse_option env handle opt_version arg rest o = print version_text >> exit 1
parse_option env handle opt_set_double arg rest o =
    no_default o (set_var_double env.libc env.os handle arg rest)
parse_option env handle opt_set_int arg rest o =
    no_default o (set_var_int env.libc env.os handle arg rest)
parse_option env handle opt_set_string arg rest o = no_default o (set_var_string handle arg rest)
parse_option env handle opt_set_name arg rest o =
    no_default o (set_var_by_name env.libc env.size handle arg rest)
parse_option env handle opt_filename arg rest o = filename_arg o arg rest

-- The loop over the arguments; `fuel` is the number of rounds.
unfoldable pub parse_loop : Env → ℕ → Option Handle → List (List ℕ) → Opts → T Opts
parse_loop env zero handle args o t = out_of_fuel
parse_loop env (suc fuel) handle [] o t = done (o, t)
parse_loop env (suc fuel) handle (arg ∷ rest) o t =
    (parse_option env handle (option_of arg) arg rest o >>= λ r. parse_loop env fuel handle r.1 r.0)
      t

-- `if (toshow & bit) ...`
unfoldable pub show_if : ℕ → ℕ → T (Unit {0}) → T (Unit {0})
show_if toshow bit p = if bit_and toshow bit == 0 then pure tt else p

-- The sections that are asked for; `fuel` is the number of rounds that are run over the items of
-- each row.
unfoldable pub show_sections : Env → ℕ → Option Handle → ℕ → T (Unit {0})
show_sections env fuel handle toshow =
    show_if toshow e_summary
      (λ t. prints (print_summary env.os.page_size env.size handle t.state.mem) t)
    >> show_if toshow e_rows
        (λ t. prints (print_rows env.libc t.globals env.size fuel handle t.state.mem) t)
    >> show_if toshow e_counters (λ t. prints (print_counters env.size handle t.state.mem) t)
    >> show_if toshow e_vars (λ t. prints (print_vars env.libc env.size handle t.state.mem) t)

-- `if (defaultshow && !toshow) toshow = 0xFFFF`
unfoldable pub sections_of : Opts → ℕ
sections_of o = if o.defaultshow && o.toshow == 0 then 0xFFFF else o.toshow

-- `g_delim`, `g_showdelim` and `g_terse` at the start.
abbrev pub start_globals : Globals
start_globals = record { delim = codes " "; showdelim = true; terse = false }

abbrev pub no_opts : Opts
no_opts = record { filename = none; defaultshow = true; toshow = 0 }

-- `args` are the arguments behind the name of the program; there are as many rounds as arguments and
-- one more.
unfoldable pub parse_args : Env → ℕ → Bool → Option Handle → List (List ℕ) → T (Option (List ℕ))
parse_args env fuel parseonly handle args =
    parse_loop env (suc (length args)) handle args no_opts >>= λ o.
    (if parseonly then pure tt else show_sections env fuel handle (sections_of o))
    >> pure o.filename

unfoldable pub attach_failed : List ℕ → T ℕ
attach_failed filename t =
    (print (
          codes "failed to attach to memmap file '"
          ++ filename
          ++ codes "', error: "
          ++ strerr t.state.errno
          ++ codes "\n")
        >> pure 1)
      t

unfoldable pub main : Env → ℕ → List (List ℕ) → T ℕ
main env fuel args = parse_args env fuel true none args >>= λ filename. elim filename [
  | none ↦ die (codes "please specify filename of log2mem memmap") []
  | some name ↦ call (attach env.os name) >>= λ handle. elim handle [
    | none ↦ attach_failed name
    | some h ↦ parse_args env fuel false (some h) args >>= λ filename2. pure 0
  ]
]
