-- ===== src/Ready/Prepared.antt =====
-- In a process whose handle is set, `MEMLOG_PREPARE_PTR` does nothing and the body runs.
use log2mem.Prelude.{ℕ, refl, arith, ==_of_ne, ◌≡◌, ◌∙◌, ap, Option, none, some}
use log2mem.State.{Handle, State, Os, M, Outcome, returned, exited, spins, undefined, ◌>>=◌}
use log2mem.Ready.{IsPowerOfTwo}
use log2mem.Ready.Index.{IsPowerOfTwo-pos}
use log2mem.Element.{with_element}
use log2mem.Init.{prepare_ptr, with_handle}

pub prepare_ptr_set :
    (os : Os) {h : Handle} (s : State) → s.handle ≡ some h → prepare_ptr os s ≡ returned tt s
unfolding prepare_ptr
prepare_ptr_set os s p = rw (p)

-- A step that returns is followed by the rest.
pub bind_returned :
    {A B : Type 0} (m : M A) (f : A → M B) (s : State) {a : A} {s' : State}
    → m s ≡ returned a s'
    → (m >>= f) s ≡ f a s'
bind_returned {A} m f s e =
    ap
      (λ (o : Outcome A). elim o [
        | returned a s' ↦ f a s'
        | exited n ↦ exited n
        | spins ↦ spins
        | undefined ↦ undefined
      ])
      e

pub with_handle_set :
    {A : Type 0} (os : Os) (early : A) (body : Handle → M A) {h : Handle} (s : State)
    → s.handle ≡ some h
    → with_handle os early body s ≡ body h s
with_handle_set os early body s p =
    bind_returned (prepare_ptr os) _ s (prepare_ptr_set os s p)
    ∙ ap (λ (o : Option Handle). elim o [ none ↦ returned early s | some h ↦ body h s ]) p

-- An array with a power of two of elements has the element.
pub with_element_some :
    {A : Type 0} {n : ℕ} (m : ℕ) (access : Outcome A)
    → m ≡ n
    → IsPowerOfTwo n
    → with_element m access ≡ access
with_element_some m access e p = rw (==_of_ne m 0 (omega (arith, e, IsPowerOfTwo-pos p))) refl
