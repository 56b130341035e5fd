-- ===== src/Tests/Args.antt =====
-- The theorems on the tool's arguments, the items of a row, the counters and the variables.
use log2mem.Prelude.{
  ◌+◌, ◌*◌, ◌≤◌, ◌≡◌, refl, arith, ◌==◌, if◌then◌else◌, some, none, [], ◌∷◌, ◌++◌, codes, true,
  false,
}
use log2mem.Memory.{Mem, load}
use log2mem.Ready.{IsReady}
use log2mem.Row.Item.{Item}
use log2mem.Var.{Kind, double_var, int_var, value_size}
use log2mem.Var.Cell.{HasVars, update, var_index, set}
use log2mem.Start.{no_vars}
use log2mem.Util.Run.{done, out_of_fuel}
use log2mem.Util.Tool.{Tool}
use log2mem.Util.Item.{show_items}
use log2mem.Util.Item.Show.{show_items_stuck}
use log2mem.Util.Shown.{shown_items}
use log2mem.Util.Shown.Rows.{show_items-eq-shown_items}
use log2mem.Util.Sections.{print_counters, print_vars}
use log2mem.Util.Sections.Show.{
  counter_lines, print_counters-eq-counter_lines, var_lines, print_vars-eq-var_lines,
}
use log2mem.Util.Args.{SetArg, process_set_var_arg, opt_int}
use log2mem.Util.Args.Index.{Form, bracketed, process_set_var_arg-index_then}
use log2mem.Util.Named.Search.{FitsKind}
use log2mem.Util.Named.{scan_value}
use log2mem.Util.ByName.{set_var_by_name}
use log2mem.Util.ByName.Set.{IsName, Named, set_var_by_name-Named}
use log2mem.Util.Main.{
  Env, Opts, no_opts, option_of, parse_option, parse_loop, parse_args, start_globals, main,
}
use log2mem.Util.Main.SetIndex.{parse_option-set_index}
use log2mem.Util.Main.Ends.{EndsWith, IsFine}
use log2mem.Util.Main.Ends.Loop.{parse_loop-ends}
use log2mem.Util.Main.FirstPass.{Same, first_pass-Same, main_missing_file}
use log2mem.Tests.{
  small_os, small_state, small_handle, small_rounded, small_IsReady, small_HasVars, small_vars,
  idle_state, small_IsFresh,
}
use log2mem.State.{State, returned}
use log2mem.Prelude.{List}
use log2mem.Db.{
  Db, Op, label_counter, add_counter, init_variable, set_variable, Models, AreOps, call_ops,
  apply_all,
}
use log2mem.Db.Run.{empty_db, fresh-Models, call_ops-Models}
use log2mem.Tests.Tool.{small_libc}

abbrev env : Env
env = record { libc = small_libc; os = small_os; size = 4096 }

abbrev tool : Tool
tool = record { state = small_state; globals = start_globals; out = [] }

abbrev idle : Tool
idle = record { state = idle_state; globals = start_globals; out = [] }

process_set_var_arg-index_then_example :
    process_set_var_arg (codes "--int[12]=42") (codes "-t" ∷ []) opt_int tool
    ≡ done (record { idx = 12; value = codes "42"; rest = codes "-t" ∷ [] }, tool)
unfolding log2mem.Util.Args.Index.index_then log2mem.Util.Args.Index.value_then
    log2mem.Util.Args.Index.value_rest log2mem.Create.Text.decimal log2mem.Create.Text.digits_onto
process_set_var_arg-index_then_example =
    process_set_var_arg-index_then bracketed true opt_int 12 (codes "42") (codes "-t" ∷ []) tool
      (omega arith)

parse_option-set_index_example :
    (t' : Tool) × (parse_option env
        (some small_handle)
        (option_of (codes "--int[1]=42"))
        (codes "--int[1]=42")
        []
        no_opts
        tool
      ≡ done ((record no_opts { defaultshow = false }, []), t'))
    × IsReady small_rounded small_handle t'.state
    × HasVars int_var small_rounded small_handle t'.state.mem
        (update (var_index small_rounded 1) (set 42) no_vars)
unfolding log2mem.Util.Args.Index.index_then log2mem.Util.Args.Index.value_then
    log2mem.Util.Args.Index.value_rest log2mem.Create.Text.decimal log2mem.Create.Text.digits_onto
    scan_value value_size
parse_option-set_index_example =
    parse_option-set_index int_var env tool small_vars small_IsReady (small_HasVars int_var)
      bracketed true 1 (omega arith) (codes "42") 42 refl (omega arith) [] no_opts

vars_inside : (small_handle).int_vars + small_rounded.num_vars * 72 ≤ 4096
unfolding log2mem.Layout.calculate_layout log2mem.Create.section_pointers
    log2mem.Create.round_config log2mem.Round.round_up_next_power_of_2
vars_inside = omega arith

numbers_fit : (k : Kind) → FitsKind k (scan_value small_libc k (codes "42"))
unfolding scan_value value_size
numbers_fit double_var = omega arith
numbers_fit int_var = omega arith

hz-IsName : IsName (codes "hz")
hz-IsName = (λ e. omega arith, λ e. omega arith, (λ e. omega arith, λ e. omega arith, tt))

set_var_by_name-Named_example :
    (t' : Tool) × (set_var_by_name small_libc 4096 (some small_handle) (codes "--hz=42") [] tool
      ≡ done ([], t'))
    × Named small_libc small_rounded small_handle (codes "hz") (codes "42") no_vars no_vars tool t'
unfolding log2mem.Util.Args.Index.value_then log2mem.Util.Args.Index.value_rest
set_var_by_name-Named_example =
    set_var_by_name-Named small_libc 4096 tool small_IsReady vars_inside b'h' (codes "z") hz-IsName
      (codes "42") numbers_fit no_vars no_vars (small_HasVars double_var) (small_HasVars int_var)
      true []

parse_loop-ends_example :
    EndsWith
      (λ r. IsFine (some small_handle) r.1)
      (parse_loop env 3 (some small_handle) (codes "--int1" ∷ codes "5" ∷ []) no_opts tool)
parse_loop-ends_example =
    parse_loop-ends env (some small_handle) 3 (codes "--int1" ∷ codes "5" ∷ []) no_opts tool refl
      (omega arith)

first_pass-Same_example :
    EndsWith (Same idle) (parse_args env 65 true none (codes "log.dat" ∷ codes "--hz=3" ∷ []) idle)
first_pass-Same_example = first_pass-Same env 65 (codes "log.dat" ∷ codes "--hz=3" ∷ []) idle

found_name :
    parse_args env 65 true none (codes "log.dat" ∷ []) idle ≡ done (some (codes "log.dat"), idle)
unfolding parse_args parse_loop parse_option option_of log2mem.Util.Main.long_option
    log2mem.Util.Main.filename_arg log2mem.Util.Format.text_eq log2mem.Util.Format.starts_with
found_name = refl

main_missing_file_example :
    (t' : Tool) × (main env 65 (codes "log.dat" ∷ []) idle ≡ done (1, t'))
    × (t'.state ≡ idle_state)
    × (t'.out ≡ codes "failed to attach to memmap file 'log.dat', error: no error\n")
main_missing_file_example =
    main_missing_file env 65 (codes "log.dat" ∷ []) (codes "log.dat") idle idle found_name refl refl

doubles_inside : (small_handle).double_vars ≤ 4096
unfolding log2mem.Layout.calculate_layout log2mem.Create.section_pointers
    log2mem.Create.round_config log2mem.Round.round_up_next_power_of_2
doubles_inside = omega arith

-- A map with a labelled counter that counts 5, and a variable of each kind.
abbrev filled_ops : List Op
filled_ops =
    label_counter small_os 1 (codes "hits")
    ∷ add_counter small_os 1 5
    ∷ init_variable double_var small_os 0 7 (some (codes "rate"))
    ∷ set_variable int_var small_os 1 9
    ∷ []

filled-AreOps : AreOps small_rounded filled_ops
unfolding value_size
filled-AreOps = (tt, (tt, (omega arith, (omega arith, tt))))

abbrev filled_db : Db
filled_db = apply_all small_rounded filled_ops empty_db

filled :
    (s' : State) × (call_ops small_rounded small_handle filled_ops small_state ≡ returned tt s')
    × Models small_rounded small_handle s' filled_db
filled =
    call_ops-Models small_state empty_db filled_ops small_vars filled-AreOps
      (fresh-Models small_IsFresh)

print_counters-eq-counter_lines_example :
    print_counters 4096 (some small_handle) (filled.0).mem
    ≡ done (counter_lines filled_db.bank small_rounded.num_counters 0)
print_counters-eq-counter_lines_example =
    print_counters-eq-counter_lines small_IsReady.set_up.is_mapped 4096 doubles_inside filled.2.bank

print_vars-eq-var_lines_example :
    print_vars small_libc 4096 (some small_handle) (filled.0).mem
    ≡ done (
        var_lines small_libc double_var (filled_db.vars double_var) small_rounded.num_vars 0
        ++ var_lines small_libc int_var (filled_db.vars int_var) small_rounded.num_vars 0)
print_vars-eq-var_lines_example =
    print_vars-eq-var_lines small_IsReady.set_up.is_mapped small_libc 4096 vars_inside
      (filled.2.vars double_var) (filled.2.vars int_var)

-- A row at 256 with one item, the `unsigned int` 42.
abbrev item_bytes : Mem
item_bytes b =
    if b == 276
    then 12
    else if b == 280
    then 3
    else if b == 284
    then 12
    else if b == 288
    then 42
    else 0

abbrev number : Item
number = record { kind = 3; bytes = 42 ∷ 0 ∷ 0 ∷ 0 ∷ [] }

show_items-eq-shown_items_example :
    show_items small_libc start_globals 4096 2 256 0 false item_bytes
    ≡ done (shown_items small_libc start_globals false (number ∷ []))
unfolding log2mem.Util.Item.tag_of load log2mem.Memory.read_bytes
show_items-eq-shown_items_example =
    show_items-eq-shown_items small_libc start_globals 4096 2 256 0 false (number ∷ []) item_bytes
      refl (refl, refl, refl, tt) (record { wide = omega arith; nul = tt }, tt) (omega arith)
      (omega arith) (omega arith)

-- A row at 256 whose 8 bytes of items are a header of zeros.
abbrev stuck_bytes : Mem
stuck_bytes b = if b == 276 then 8 else 0

show_items_stuck_example :
    show_items small_libc start_globals 4096 100 256 0 false stuck_bytes ≡ out_of_fuel
unfolding log2mem.Util.Item.tag_of log2mem.Util.Item.show_data load
show_items_stuck_example =
    show_items_stuck small_libc start_globals 4096 100 256 0 false [] stuck_bytes (omega arith)
      (omega arith) (omega arith) refl (omega arith) refl
