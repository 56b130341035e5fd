-- ===== src/Util/Main/Ends.antt =====
-- The loop over the arguments ends: an option takes its own argument and at most one more.
pub mod Loop
use log2mem.Prelude.{
  ℕ, zero, suc, ◌+◌, ◌-◌, ◌*◌, ◌^◌, ◌≤◌, ◌<◌, ◌≡◌, refl, ◌∙◌, sym, ap, arith, ◌==◌, ltb, bit_and,
  if◌then◌else◌, Bool, Bool-cases, inl, inr, true, false, Option, none, some, List, [], ◌∷◌, ◌++◌,
  length, codes, drop,
}
use log2mem.Memory.{Mem, load}
use log2mem.State.{Handle, State, Os, returned}
use log2mem.Ready.Prepared.{with_handle_set}
use log2mem.Var.{
  Kind, double_var, int_var, base, size, value_size, flags, text, log2mem_e_used, var_set, set_var,
}
use log2mem.Util.Run.{Run, done, fault, exits, out_of_fuel}
use log2mem.Util.Format.{Libc}
use log2mem.Util.Tool.{Tool, T, pure, call, die, ◌>>=◌, ◌>>◌}
use log2mem.Util.Args.{
  SetArg, value_arg, process_set_var_arg, scanned, set_var_double, set_var_int, set_var_string,
  opt_double, opt_int, opt_string, scan_index, skip_char,
}
use log2mem.Util.Named.{
  same_text, set_named, set_both, set_label_value, set_by_label, split_at_equals, scan_value,
  store_scanned,
}
use log2mem.Util.Main.Help.{help_text, version_text}
use log2mem.Util.Main.{
  Env, Opt, opt_help, opt_summary, opt_counters, opt_rows, opt_vars, opt_all, opt_delim,
  opt_no_delim, opt_terse, opt_version, opt_set_double, opt_set_int, opt_set_string, opt_set_name,
  opt_filename, option_of, Opts, Rest, parse_option, parse_loop, delim_arg, filename_arg,
  no_default,
}

-- A part of the tool ends, and a result has the property `Q`.
abbrev pub EndsWith : {A : Type 0} → (A → Type 0) → Run A → Type 0
EndsWith Q r = elim r [ done a ↦ Q a | fault ↦ Unit | exits out status ↦ Unit | out_of_fuel ↦ ⊥ ]

-- The handle that the tool works with is that of the library, if there is one.
abbrev pub IsFine : Option Handle → Tool → Type 0
IsFine none t = Unit
IsFine (some h) t = t.state.handle ≡ some h

run_step :
    {A B : Type 0} (Q : A → Type 0) (R : B → Type 0) (r : Run A) (f : A → Run B)
    → EndsWith Q r
    → ((a : A) → Q a → EndsWith R (f a))
    → EndsWith R (elim r [
      | done a ↦ f a
      | fault ↦ fault
      | exits out status ↦ exits out status
      | out_of_fuel ↦ out_of_fuel
    ])
run_step Q R (done a) f e next = next a e
run_step Q R fault f e next = tt
run_step Q R (exits out status) f e next = tt
run_step Q R out_of_fuel f e next = absurd e

-- A step of the tool and the rest; `Q` and `R` are about the result and the tool.
pub step :
    {A B : Type 0} (Q : A × Tool → Type 0) (R : B × Tool → Type 0) (p : T A) (f : A → T B)
    (t : Tool)
    → EndsWith Q (p t)
    → ((a : A) (t' : Tool) → Q (a, t') → EndsWith R (f a t'))
    → EndsWith R ((p >>= f) t)
step Q R p f t e next = run_step Q R (p t) (λ r. f r.0 r.1) e (λ r q. next r.0 r.1 q)

same_text-ends :
    (n : ℕ) (label : List ℕ) (a : ℕ) (m : Mem) → EndsWith (λ b. Unit {0}) (same_text n label a m)
unfolding same_text
same_text-ends zero label a m = tt
same_text-ends (suc n) [] a m = tt
same_text-ends (suc n) (x ∷ xs) a m = elim (Bool-cases (m a == x)) [
  | inl p ↦ rw p (same_text-ends n xs (a + 1) m)
  | inr p ↦ rw p tt
]

set_named-ends :
    (k : Kind) (end : ℕ) (label : List ℕ) (value : Option ℕ) (count a : ℕ) (found : Bool) (m : Mem)
    → EndsWith (λ r. Unit {0}) (set_named k end label value count a found m)
unfolding set_named
set_named-ends k end label value zero a found m = tt
set_named-ends k end label value (suc count) a found m = elim (Bool-cases (ltb end (a + size k))) [
  | inl outside ↦ rw outside tt
  | inr inside ↦ elim (Bool-cases (bit_and (load 4 (a + flags k) m) log2mem_e_used == 0)) [
    | inl unused ↦ rw (inside, unused) (set_named-ends k end label value count (a + size k) found m)
    | inr used ↦
        rw (inside, used)
          (run_step (λ b. Unit {0}) (λ r. Unit {0})
            (same_text (end - (a + text k)) label (a + text k) m) _
            (same_text-ends (end - (a + text k)) label (a + text k) m)
            (λ same u. elim (Bool-cases same) [
              | inl p ↦ rw p (
                  set_named-ends k end label value count (a + size k) true
                    (store_scanned k a value m))
              | inr p ↦ rw p (set_named-ends k end label value count (a + size k) found m)
            ]))
  ]
]

set_both-ends :
    (lc : Libc) (end : ℕ) (h : Handle) (label p : List ℕ) (m : Mem)
    → EndsWith (λ r. Unit {0}) (set_both lc end h label p m)
unfolding set_both
set_both-ends lc end h label p m =
    run_step (λ r. Unit {0}) (λ r. Unit {0})
      (set_named double_var end label (scan_value lc double_var p) (load 4 48 m) (base double_var h)
        false m)
      _
      (set_named-ends double_var end label (scan_value lc double_var p) (load 4 48 m)
        (base double_var h) false m)
      (λ r u.
        set_named-ends int_var end label (scan_value lc int_var p) (load 4 48 r.1) (base int_var h)
          r.0 r.1)

-- What a function that takes `rest` leaves of it, on a tool that is still fine.
abbrev pub Leaves : Option Handle → ℕ → List (List ℕ) × Tool → Type 0
Leaves handle n r = (length r.0 ≤ n) × IsFine handle r.1

pub set_by_label-ends :
    (lc : Libc) (end : ℕ) (handle : Option Handle) (label p : List ℕ) (t : Tool)
    → IsFine handle t
    → EndsWith (λ (r : Unit {0} × Tool). IsFine handle r.1) (set_by_label lc end handle label p t)
unfolding set_by_label set_label_value
set_by_label-ends lc end none label p t fine = tt
set_by_label-ends lc end (some h) [] p t fine = fine
set_by_label-ends lc end (some h) (x ∷ label) p t fine =
    run_step (λ r. Unit {0}) (λ (r : Unit {0} × Tool). IsFine (some h) r.1)
      (set_both lc end h (x ∷ label) p t.state.mem) _
      (set_both-ends lc end h (x ∷ label) p t.state.mem) (λ r u. fine)

pub value_arg-ends :
    (handle : Option Handle) (idx : ℕ) (firstarg ptr : List ℕ) (rest : List (List ℕ)) (t : Tool)
    → IsFine handle t
    → EndsWith
        (λ (r : SetArg × Tool). (length (r.0).rest ≤ length rest) × IsFine handle r.1)
        (value_arg idx firstarg ptr rest t)
unfolding value_arg die
value_arg-ends handle idx firstarg [] [] t fine = tt
value_arg-ends handle idx firstarg [] (next ∷ rest) t fine = (omega arith, fine)
value_arg-ends handle idx firstarg (x ∷ xs) rest t fine = elim (Bool-cases (x == b'=')) [
  | inl p ↦ rw p (omega arith, fine)
  | inr p ↦ rw p tt
]
