-- ===== src/Util/Main/Dump.antt =====
-- A process logs, and the tool prints what it logged: the whole way through the map.
use log2mem.Prelude.{
  ℕ, ◌+◌, ◌-◌, ◌^◌, ◌≤◌, ◌<◌, ◌≡◌, refl, ◌∙◌, sym, ap, arith, true, false, Option, none, some, List,
  [], ◌∷◌, ◌++◌, length, drop, codes,
}
use mathlib.Core.Path.{subst}
use log2mem.Memory.{Mem, load}
use log2mem.Memory.Frame.{load-Frame}
use log2mem.Changes.{Changes-keep}
use log2mem.Config.{Config}
use log2mem.State.{Handle, State, Os, MapResult, Outcome, returned, exited, spins, undefined}
use log2mem.Create.{round_config, section_pointers}
use log2mem.Layout.{calculate_layout}
use log2mem.Create.Header.{header-arch}
use log2mem.Init.{attach}
use log2mem.Ready.{IsSetUp, IsMapped}
use log2mem.Ready.Fresh.{CanInit, IsFresh, map_size, fresh_handle, fresh_state, fresh_state-IsFresh}
use log2mem.Ready.Attach.{attached_handle, attach-64, unnamed-IsMapped}
use log2mem.Ring.{Log, Represents, empty_log}
use log2mem.Ring.Recent.{start}
use log2mem.Ring.Run.{Call, AreCalls, write_log, writes, writes-Ran, Ran}
use log2mem.Start.{fresh-Represents}
use log2mem.Util.Run.{done}
use log2mem.Util.Format.{Globals}
use log2mem.Util.Tool.{Tool, T, call, prints, bind_done, pure, ◌>>◌}
use log2mem.Util.Rows.{print_rows}
use log2mem.Util.Rows.Terse.{AreLegible, text_lines, print_rows-eq-text_lines}
use log2mem.Util.Main.{
  Env, Opt, opt_filename, option_of, Opts, parse_option, parse_loop, parse_args, no_opts,
  show_sections, show_if, sections_of, main, e_rows,
}

abbrev pub terse_rows : List ℕ → List (List ℕ)
terse_rows name = name ∷ codes "-t" ∷ codes "-r" ∷ []

abbrev asked : List ℕ → Opts
asked name = record { filename = some name; defaultshow = true; toshow = e_rows }

abbrev terse : Tool → Tool
terse t = record t { globals = record t.globals { terse = true } }

parse_terse_rows :
    (env : Env) (handle : Option Handle) (name : List ℕ) (t : Tool)
    → option_of name ≡ opt_filename
    → parse_loop env 4 handle (terse_rows name) no_opts t ≡ done (asked name, terse t)
unfolding parse_loop parse_option option_of log2mem.Util.Main.filename_arg
    log2mem.Util.Format.text_eq
parse_terse_rows env handle name t e = rw (e) refl

-- The two ways to end with a value have one value and one state.
returned_state : {A : Type 0} (s : State) → Outcome A → State
returned_state s (returned a s') = s'
returned_state s (exited n) = s
returned_state s spins = s
returned_state s undefined = s

returned_inj : {A : Type 0} (a : A) (s s' : State) → returned a s ≡ returned a s' → s ≡ s'
unfolding returned_state
returned_inj a s s' e = ap (returned_state s) e

-- The handle without a file's name sees the same log.
unnamed-Represents :
    (ps : ℕ) (name : Option (List ℕ)) {c : Config} {m : Mem} {l : Log}
    → Represents c (section_pointers (calculate_layout ps c) name) m l
    → Represents c (attached_handle ps c) m l
unfolding section_pointers
unnamed-Represents ps name v = record {
  config = v.config;
  next = v.next;
  entries = λ i lt. let e = v.entries i lt in record { id = e.id; row = e.row; room = e.room };
}

-- `log2mem_init` and calls of `log2mem_write`; then, in another process, the tool.
module _ (os : Os) (fn : Option (List ℕ)) (config : Config) (m0 : Mem) (s0 : State)
    (can : CanInit os fn config m0 s0) (calls : List Call) (ok : AreCalls calls)
    (word : length calls < 2 ^ 32) (s : State)
    (logged : writes calls (fresh_state os fn config m0 s0) ≡ returned tt s) where
  abbrev c : Config
  c = round_config config

  fresh : IsFresh c (fresh_handle os fn config) (map_size os c) (fresh_state os fn config m0 s0)
  fresh = fresh_state-IsFresh os fn config m0 s0 can

  ran :
      Ran c
        (fresh_handle os fn config)
        (0 + length calls)
        empty_log
        calls
        (fresh_state os fn config m0 s0)
  ran =
      writes-Ran (fresh_state os fn config m0 s0) empty_log 0 calls fresh.ready
        (fresh-Represents fresh) start ok (omega arith)

  mapped_at : IsMapped c (fresh_handle os fn config)
  mapped_at = fresh.ready.set_up.is_mapped

  same_state : ran.after ≡ s
  same_state = returned_inj tt ran.after s (sym ran.returns ∙ logged)

  arch : load 4 56 s.mem ≡ 64
  arch =
      ap (λ (t : State). load 4 56 t.mem) (sym same_state)
      ∙ Changes-keep {X = λ m. load 4 56 m ≡ 64}
          (λ lo hi m m' p f e.
            load-Frame 4 56 {lo = lo} {hi = hi} (omega (arith, mapped_at.rows_at)) f ∙ e)
          ran.changes (header-arch os c _)

  module _ (env : Env) (page : env.os.page_size ≡ os.page_size) where
    abbrev h : Handle
    h = attached_handle env.os.page_size c

    set_up : IsSetUp c h
    set_up = record {
      rounded = fresh.ready.set_up.rounded;
      is_mapped =
          subst (λ ps. IsMapped c (attached_handle ps c)) (sym page)
            (unnamed-IsMapped os.page_size c _ fresh.ready.set_up.is_mapped);
      row_len_fits = fresh.ready.set_up.row_len_fits;
    }

    seen : Represents c h s.mem (write_log c empty_log calls)
    seen =
        subst (λ ps. Represents c (attached_handle ps c) s.mem (write_log c empty_log calls))
          (sym page)
          (subst
            (λ (t : State).
              Represents c (attached_handle os.page_size c) t.mem (write_log c empty_log calls))
            same_state (unnamed-Represents os.page_size _ ran.represents))

    module _ (name : List ℕ) (is_name : option_of name ≡ opt_filename)
        (attached : env.os.attach_map name ≡ MapResult.mapped s.mem) (fuel : ℕ)
        (enough : c.row_len < fuel) (inside : (h).counter_labels ≤ env.size)
        (small : env.size < 2 ^ 31) (legible : AreLegible c calls) (t : Tool) where
      abbrev text : List ℕ
      text = text_lines (drop (length calls - c.num_rows) calls)

      abbrev after : Tool
      after = record (terse t) { state = record t.state { mem = s.mem; handle = some h } }

      first_pass : parse_args env fuel true none (terse_rows name) t ≡ done (some name, terse t)
      unfolding parse_args
      first_pass =
          bind_done (parse_loop env 4 none (terse_rows name) no_opts) _ t
            (parse_terse_rows env none name t is_name)

      attaches : call (attach env.os name) (terse t) ≡ done (some h, after)
      unfolding call
      attaches = rw (call, attach-64 env.os name s.mem c t.state attached seen.config arch) refl

      rows : T (Unit {0})
      rows t = prints (print_rows env.libc t.globals env.size fuel (some h) t.state.mem) t

      prints_rows : rows (terse after) ≡ done (tt, record after { out = t.out ++ text })
      unfolding rows prints
      prints_rows =
          ap (λ r. prints r (terse after))
            (print_rows-eq-text_lines env.size fuel env.libc (terse after).globals set_up calls seen
              word inside small enough legible refl)

      shows :
          show_sections env fuel (some h) e_rows (terse after)
          ≡ done (tt, record after { out = t.out ++ text })
      unfolding show_sections show_if rows
      shows =
          bind_done (rows >> pure tt) (λ u. pure tt) (terse after)
            (bind_done rows (λ u. pure tt) (terse after) prints_rows)

      second_pass :
          parse_args env fuel false (some h) (terse_rows name) after
          ≡ done (some name, record after { out = t.out ++ text })
      unfolding parse_args sections_of
      second_pass =
          bind_done (parse_loop env 4 (some h) (terse_rows name) no_opts) _ after
            (parse_terse_rows env (some h) name after is_name)
          ∙ bind_done (show_sections env fuel (some h) e_rows) _ (terse after) shows

      -- A process that `log2mem_init` has made ready calls `log2mem_write` fewer than 2 ^ 32 times;
      -- then the tool, run as `log2mem-dump NAME -t -r` on the map, returns 0, has attached the map
      -- without changing it, and has printed the texts of the last `num_rows` calls in their order, a
      -- line each, and nothing else. The conditions: those of `CanInit`; texts and file names that fit
      -- a row's size; texts without NUL that have room behind the place of the call; a name that is no
      -- option; the same size of pages; a map that fits an `int` and reaches at least to the labels;
      -- and more rounds than a row has bytes.
      pub main-eq-text_lines :
          main env fuel (terse_rows name) t ≡ done (0, record after { out = t.out ++ text })
      unfolding main
      main-eq-text_lines =
          bind_done (parse_args env fuel true none (terse_rows name)) _ t first_pass
          ∙ bind_done (call (attach env.os name)) _ (terse t) attaches
          ∙ bind_done (parse_args env fuel false (some h) (terse_rows name)) _ after second_pass
