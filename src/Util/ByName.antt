-- ===== src/Util/ByName.antt =====
-- `set_var_by_name` of util/log2memutil.c.
pub mod Set
use log2mem.Prelude.{ℕ, Option, none, some, List, [], ◌∷◌, drop, codes}
use log2mem.State.{Handle}
use log2mem.Util.Format.{Libc}
use log2mem.Util.Tool.{T, pure, die, ◌>>=◌, ◌>>◌}
use log2mem.Util.Named.{split_at_equals, set_by_label}

-- `label`, `p` and the arguments that are left.
pub record NameArg : Type 0 where
  pub label : List ℕ
  pub value : List ℕ
  pub rest : List (List ℕ)

unfoldable pub name_arg : Option (List ℕ × List ℕ) → List ℕ → List (List ℕ) → T NameArg
name_arg (some (label, p)) firstptr rest = pure (record { label = label; value = p; rest = rest })
name_arg none firstptr [] = die (codes "missing argument after ") firstptr
name_arg none firstptr (p ∷ rest) =
    pure (record { label = drop 2 firstptr; value = p; rest = rest })

-- The result is the arguments that are left.
unfoldable pub set_var_by_name :
    Libc → ℕ → Option Handle → List ℕ → List (List ℕ) → T (List (List ℕ))
set_var_by_name lc end handle firstptr rest =
    name_arg (split_at_equals (drop 2 firstptr)) firstptr rest >>= λ a.
    set_by_label lc end handle a.label a.value >> pure a.rest
