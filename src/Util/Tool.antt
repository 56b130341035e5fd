-- ===== src/Util/Tool.antt =====
-- The tool as a process: its globals, those of the library in it, and what it has printed.
use log2mem.Prelude.{ℕ, ◌≡◌, refl, ap, List, ◌++◌, codes}
use log2mem.State.{State, M, Outcome, returned, exited, spins, undefined}
use log2mem.Util.Run.{Run, done, fault, exits, out_of_fuel}
use log2mem.Util.Format.{Globals}

pub record Tool : Type 0 where
  pub state : State
  pub globals : Globals
  pub out : List ℕ

abbrev pub T : Type 0 → Type 0
T A = Tool → Run (A × Tool)

infixl 5 ◌>>=◌ ◌>>◌
abbrev pub ◌>>=◌ : {A B : Type 0} → T A → (A → T B) → T B
◌>>=◌ p f t = elim (p t) [
  | done (a, t') ↦ f a t'
  | fault ↦ fault
  | exits text status ↦ exits text status
  | out_of_fuel ↦ out_of_fuel
]

abbrev pub ◌>>◌ : {B : Type 0} → T (Unit {0}) → T B → T B
p >> q = p >>= λ _. q

abbrev pub pure : {A : Type 0} → A → T A
pure a t = done (a, t)

abbrev pub print : List ℕ → T (Unit {0})
print text t = done (tt, record t { out = t.out ++ text })

abbrev pub exit : {A : Type 0} → ℕ → T A
exit status t = exits t.out status

-- `die`
unfoldable pub die : {A : Type 0} → List ℕ → List ℕ → T A
die msg msg2 = print (msg ++ msg2 ++ codes "\n") >> exit 1

-- What a function over the map prints; one that ends otherwise ends the tool.
unfoldable pub prints : Run (List ℕ) → T (Unit {0})
prints r t = elim r [
  | done text ↦ done (tt, record t { out = t.out ++ text })
  | fault ↦ fault
  | exits text status ↦ exits (t.out ++ text) status
  | out_of_fuel ↦ out_of_fuel
]

-- A call of the library.
unfoldable pub call : {A : Type 0} → M A → T A
call f t = elim (f t.state) [
  | returned a s ↦ done (a, record t { state = s })
  | exited n ↦ exits t.out n
  | spins ↦ out_of_fuel
  | undefined ↦ fault
]

-- A step that ends with a result is followed by the rest.
pub bind_done :
    {A B : Type 0} (p : T A) (f : A → T B) (t : Tool) {a : A} {t' : Tool}
    → p t ≡ done (a, t')
    → (p >>= f) t ≡ f a t'
bind_done {A} p f t e =
    ap
      (λ (r : Run (A × Tool)). elim r [
        | done (a, t') ↦ f a t'
        | fault ↦ fault
        | exits text status ↦ exits text status
        | out_of_fuel ↦ out_of_fuel
      ])
      e

-- A call that returns.
pub call_returned :
    {A : Type 0} (f : State → Outcome A) (t : Tool) {a : A} {s : State}
    → f t.state ≡ returned a s
    → call f t ≡ done (a, record t { state = s })
unfolding call
call_returned f t e = rw (call, e) refl
