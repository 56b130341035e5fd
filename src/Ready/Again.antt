-- ===== src/Ready/Again.antt =====
-- `log2mem_init` in a process that is initialised already.
use log2mem.Prelude.{ℕ, ◌≤◌, ◌≡◌, ltb_of_le, Option, some, List}
use log2mem.State.{Handle, State, Os, returned}
use log2mem.Init.{init}

-- `log2mem_init` with at most 20 bytes of configuration, in a process whose handle is set, returns
-- without a change, whatever file and configuration it is given.
pub init_again :
    (os : Os) (fn : Option (List ℕ)) (user : List ℕ) (n : ℕ) {h : Handle} (s : State)
    → n ≤ 20
    → s.handle ≡ some h
    → init os fn user n s ≡ returned tt s
unfolding init
init_again os fn user n s small p = rw (ltb_of_le 20 n small) (simp p)
