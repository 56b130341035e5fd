-- ===== src/Util/ByName/Set.antt =====
-- An argument `--NAME=V` or `--NAME V` sets the variables with that label.
use log2mem.Prelude.{
  ℕ, ◌+◌, ◌*◌, ◌≤◌, ◌≡◌, refl, ◌∙◌, ap, arith, ==_of_ne, Bool, true, false, none, some, List, [],
  ◌∷◌, ◌++◌, codes,
}
use log2mem.Memory.{Mem}
use log2mem.Changes.{change, none_left}
use log2mem.Changes.Keep.{vars_keep-ints, vars_keep-doubles}
use log2mem.Config.{Config}
use log2mem.State.{Handle}
use log2mem.Ready.{IsReady, IsSetUp}
use log2mem.Ready.Index.{num_vars_at}
use log2mem.Var.{Kind, double_var, int_var}
use log2mem.Var.Cell.{Vars, HasVars}
use log2mem.Util.Run.{done}
use log2mem.Util.Format.{Libc}
use log2mem.Util.Tool.{Tool, bind_done}
use mathlib.Core.List.{append-nil}
use log2mem.Util.Args.Index.{value_then, value_rest}
use log2mem.Util.Named.Search.{HasNoNul, FitsKind, assign, hits, set_named-HasVars}
use log2mem.Util.Named.{
  split_at_equals, scan_value, set_both, warning, set_label_value, set_by_label,
}
use log2mem.Util.Shown.{shown_warning}
use log2mem.Util.ByName.{name_arg, set_var_by_name}

-- A name without NUL and without `=`.
abbrev pub IsName : List ℕ → Type 0
IsName [] = Unit
IsName (x ∷ xs) = (x ≡ 0 → ⊥) × (x ≡ b'=' → ⊥) × IsName xs

IsName-HasNoNul : (name : List ℕ) → IsName name → HasNoNul name
IsName-HasNoNul [] ok = tt
IsName-HasNoNul (x ∷ xs) ok = (ok.0, IsName-HasNoNul xs ok.2)

split_name : (name p : List ℕ) → IsName name → split_at_equals (name ++ b'=' ∷ p) ≡ some (name, p)
unfolding split_at_equals
split_name [] p ok = refl
split_name (x ∷ xs) p ok = rw (==_of_ne x b'=' ok.1, split_name xs p ok.2) refl

split_none : (name : List ℕ) → IsName name → split_at_equals name ≡ none
unfolding split_at_equals
split_none [] ok = refl
split_none (x ∷ xs) ok = rw (==_of_ne x b'=' ok.1, split_none xs ok.2) refl

-- Whether a variable of either kind has the label.
unfoldable pub found_any : List ℕ → ℕ → Vars → Vars → Bool
found_any label n vs ws = hits label ws n 0 (hits label vs n 0 false)

module _ (lc : Libc) (end : ℕ) {c : Config} {h : Handle} (u : IsSetUp c h)
    (inside : h.int_vars + c.num_vars * 72 ≤ end) (label : List ℕ) (clean : HasNoNul label)
    (p : List ℕ) (small : (k : Kind) → FitsKind k (scan_value lc k p)) where
  set_both-HasVars :
      (m : Mem) (vs ws : Vars)
      → HasVars double_var c h m vs
      → HasVars int_var c h m ws
      → (m' : Mem) × (set_both lc end h label p m ≡ done (found_any label c.num_vars vs ws, m'))
        × HasVars double_var c h m' (λ i. assign label (scan_value lc double_var p) (vs i))
        × HasVars int_var c h m' (λ i. assign label (scan_value lc int_var p) (ws i))
  unfolding set_both found_any
  set_both-HasVars m vs ws v w =
      let (m1, first, doubles, frame) =
        set_named-HasVars double_var u end inside label clean (scan_value lc double_var p)
          (small double_var) false m vs v in
      let w1 : HasVars int_var c h m1 ws =
        vars_keep-ints u (change _ _ (omega arith, omega arith) frame none_left) w in
      let (m2, second, ints, frame2) =
        set_named-HasVars int_var u end inside label clean (scan_value lc int_var p) (small int_var)
          (hits label vs c.num_vars 0 false) m1 ws w1 in
      (
        m2,
        rw (num_vars_at v.config, first, num_vars_at w1.config, second) refl,
        vars_keep-doubles u (change _ _ (omega arith, omega arith) frame2 none_left) doubles,
        ints,
      )

warning_lem : (found : Bool) (name : List ℕ) → warning found name ≡ shown_warning found name
unfolding warning
warning_lem true name = refl
warning_lem false name = refl

-- What the search for a name makes of a ready process.
pub record Named (lc : Libc) (c : Config) (h : Handle) (name p : List ℕ) (vs ws : Vars)
    (t t' : Tool) : Type 0 where
  pub ready : IsReady c h t'.state
  pub doubles : HasVars double_var c h t'.state.mem (λ i. assign name (lc.scan_double p) (vs i))
  pub ints : HasVars int_var c h t'.state.mem (λ i. assign name (lc.scan_int p) (ws i))
  pub out : t'.out ≡ t.out ++ shown_warning (found_any name c.num_vars vs ws) name

module _ (lc : Libc) (end : ℕ) {c : Config} {h : Handle} (t : Tool) (r : IsReady c h t.state)
    (inside : h.int_vars + c.num_vars * 72 ≤ end) (x : ℕ) (xs : List ℕ) (ok : IsName (x ∷ xs))
    (p : List ℕ) (small : (k : Kind) → FitsKind k (scan_value lc k p)) (vs ws : Vars)
    (v : HasVars double_var c h t.state.mem vs) (w : HasVars int_var c h t.state.mem ws) where
  sets_label :
      (t' : Tool) × (set_by_label lc end (some h) (x ∷ xs) p t ≡ done (tt, t'))
      × Named lc c h (x ∷ xs) p vs ws t t'
  unfolding set_by_label set_label_value scan_value
  sets_label =
      let (m', returns, doubles, ints) =
        set_both-HasVars lc end r.set_up inside (x ∷ xs) (IsName-HasNoNul (x ∷ xs) ok) p small
          t.state.mem vs ws v w in
      (
        record t {
          state = record t.state { mem = m' };
          out = t.out ++ warning (found_any (x ∷ xs) c.num_vars vs ws) (x ∷ xs);
        },
        rw (returns) refl,
        record {
          ready = record { has_handle = r.has_handle; config = doubles.config; set_up = r.set_up };
          doubles = doubles;
          ints = ints;
          out = ap (◌++◌ t.out) (warning_lem (found_any (x ∷ xs) c.num_vars vs ws) (x ∷ xs));
        },
      )

  -- `set_var_by_name` on a ready map takes `--NAME=V`, or `--NAME` and the next argument, and gives
  -- every variable that was set and has that label the number that `sscanf` finds in the value for its
  -- kind, if there is one; it changes no other variable, prints a warning if no variable has the label,
  -- and leaves the arguments behind. The name is not empty and has no NUL and no `=`, and a number
  -- that is found fits the kind.
  pub set_var_by_name-Named :
      (inline : Bool) (rest : List (List ℕ))
      → (t' : Tool) × (set_var_by_name lc end
            (some h)
            (codes "--" ++ (x ∷ xs) ++ value_then inline p)
            (value_rest inline p rest)
            t
          ≡ done (rest, t'))
        × Named lc c h (x ∷ xs) p vs ws t t'
  unfolding set_var_by_name name_arg value_then value_rest
  set_var_by_name-Named true rest = (
    sets_label.0,
    bind_done
          (name_arg (split_at_equals (x ∷ xs ++ b'=' ∷ p)) (b'-' ∷ b'-' ∷ x ∷ xs ++ b'=' ∷ p) rest)
          _ t (rw (split_name (x ∷ xs) p ok) refl)
        ∙ bind_done (set_by_label lc end (some h) (x ∷ xs) p) _ t sets_label.1,
    sets_label.2,
  )
  set_var_by_name-Named false rest = (
    sets_label.0,
    ap (λ (n : List ℕ). set_var_by_name lc end (some h) (b'-' ∷ b'-' ∷ x ∷ n) (p ∷ rest) t)
          (append-nil xs)
        ∙ bind_done (name_arg (split_at_equals (x ∷ xs)) (b'-' ∷ b'-' ∷ x ∷ xs) (p ∷ rest)) _ t
            (rw (split_none (x ∷ xs) ok) refl)
        ∙ bind_done (set_by_label lc end (some h) (x ∷ xs) p) _ t sets_label.1,
    sets_label.2,
  )
