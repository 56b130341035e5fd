-- ===== src/Ready/Fresh.antt =====
-- What `__log2mem_create` and `log2mem_init` leave: a ready process over a map of zeros.
use log2mem.Prelude.{ℕ, ◌+◌, ◌*◌, ◌^◌, ◌≤◌, ◌<◌, ◌≡◌, ◌∙◌, refl, ap, ltb_of_le, inr, arith}
use log2mem.Prelude.{true, Option, none, some, List, sext}
use log2mem.Memory.{Mem, load, fill}
use log2mem.Memory.Frame.{fill_inside}
use log2mem.Config.{Config, IsConfig}
use log2mem.Layout.{Layout, calculate_layout}
use log2mem.Layout.Packed.{IsPageSize, Fits, IsPacked, calculate_layout-IsPacked}
use log2mem.State.{Handle, State, Os, returned}
use log2mem.Create.{round_config, write_header, section_pointers, file_name, create}
use log2mem.Create.Header.{write_header-Frame, header-config, header-nextrow}
use log2mem.Init.{copy_config, init}
use log2mem.Ready.{IsRounded, IsMapped, IsReady}
use log2mem.Ready.Index.{IsPowerOfTwo-pos}
use log2mem.Ready.Rounded.{round_config-IsRounded, round_config-IsConfig}

section_pointers-IsMapped :
    (ps : ℕ) (c : Config) (l : Layout) (name : Option (List ℕ))
    → IsPacked ps c l
    → IsMapped c (section_pointers l name)
unfolding section_pointers
section_pointers-IsMapped ps c l name p = ground arith

-- The size that the file is given, and the map that its bytes become.
abbrev pub map_size : Os → Config → ℕ
map_size os c = sext (calculate_layout os.page_size c).size

abbrev pub fresh_map : Os → Config → Mem → Mem
fresh_map os c m = write_header os c (fill 0 (map_size os c) 0 m)

pub record IsFresh (c : Config) (h : Handle) (size : ℕ) (s : State) : Type 0 where
  pub ready : IsReady c h s
  pub unlocked : s.lock ≡ 0
  pub no_row : load 4 28 s.mem ≡ 0
  pub enough : h.int_vars + c.num_vars * 72 ≤ size
  pub zeros : (b : ℕ) → 256 ≤ b → b < size → s.mem b ≡ 0

-- The conditions under which a process can be initialised: nobody has done so, the configuration
-- fits an `int`, and the file can be enlarged and mapped.
pub record CanInit (os : Os) (fn : Option (List ℕ)) (c : Config) (m : Mem) (s : State)
    : Type 0 where
  pub no_handle : s.handle ≡ none
  pub lock_free : s.lock ≡ 0
  pub page : IsPageSize os.page_size
  pub words : IsConfig c
  pub fits : Fits os.page_size (round_config c)
  pub truncates : os.ftruncate (file_name os fn) (map_size os (round_config c)) ≡ true
  pub maps : os.mmap (file_name os fn) (map_size os (round_config c)) ≡ some m

abbrev pub fresh_handle : Os → Option (List ℕ) → Config → Handle
fresh_handle os fn c =
    section_pointers (calculate_layout os.page_size (round_config c)) (some (file_name os fn))

abbrev pub fresh_state : Os → Option (List ℕ) → Config → Mem → State → State
fresh_state os fn c m s = record {
  mem = fresh_map os (round_config c) m;
  handle = some (fresh_handle os fn c);
  errno = s.errno;
  lock = 0;
}

row_len_of_Fits : (ps : ℕ) (c : Config) → IsRounded c → Fits ps c → c.row_len < 2 ^ 31
row_len_of_Fits ps c r f = grind (arith, IsPowerOfTwo-pos r.rows)

module _ (os : Os) (fn : Option (List ℕ)) (c : Config) (m : Mem) (s : State)
    (can : CanInit os fn c m s) where
  packed : IsPacked os.page_size (round_config c) (calculate_layout os.page_size (round_config c))
  packed =
      calculate_layout-IsPacked os.page_size (round_config c) can.page
        (round_config-IsConfig c can.words) can.fits

  holds_sections :
      (fresh_handle os fn c).int_vars + (round_config c).num_vars * 72
      ≤ map_size os (round_config c)
  unfolding section_pointers
  holds_sections = ground (arith, packed.ints_end, packed.size_fits)

  -- The state after a first initialisation is ready, unlocked, at row 0 and zero behind the header.
  pub fresh_state-IsFresh :
      IsFresh
        (round_config c)
        (fresh_handle os fn c)
        (map_size os (round_config c))
        (fresh_state os fn c m s)
  fresh_state-IsFresh = record {
    ready = record {
      has_handle = refl;
      config = record {
        loads = header-config os (round_config c) _ (round_config-IsConfig c can.words);
      };
      set_up = record {
        rounded = round_config-IsRounded c can.words;
        is_mapped = section_pointers-IsMapped os.page_size (round_config c) _ _ packed;
        row_len_fits =
            row_len_of_Fits os.page_size (round_config c) (round_config-IsRounded c can.words)
              can.fits;
      };
    };
    unlocked = refl;
    no_row = header-nextrow os (round_config c) _;
    enough = holds_sections;
    zeros = λ b p q.
        write_header-Frame os (round_config c) _ b (inr (omega arith))
        ∙ fill_inside 0 (map_size os (round_config c)) 0 m b (omega arith) (omega arith);
  }

abbrev pub idle : Mem → ℕ → State
idle mem errno = record { mem = mem; handle = none; errno = errno; lock = 0 }

pub idle_eq : (s : State) → s.handle ≡ none → s.lock ≡ 0 → s ≡ idle s.mem s.errno
idle_eq s p q = λ i. record { mem = s.mem; handle = p i; errno = s.errno; lock = q i }

create_returns :
    (os : Os) (fn : Option (List ℕ)) (c : Config) (m mem : Mem) (errno : ℕ)
    → os.ftruncate (file_name os fn) (map_size os (round_config c)) ≡ true
    → os.mmap (file_name os fn) (map_size os (round_config c)) ≡ some m
    → create os fn c (record { mem = mem; handle = none; errno = errno; lock = 1 })
      ≡ returned
          (fresh_handle os fn c)
          (record { mem = fresh_map os (round_config c) m; handle = none; errno = errno; lock = 1 })
unfolding create
create_returns os fn c m mem errno p q = rw (p, q)

init-idle :
    (os : Os) (fn : Option (List ℕ)) (user : List ℕ) (n : ℕ) (m mem : Mem) (errno : ℕ)
    → n ≤ 20
    → let c = round_config (copy_config user n) in
      os.ftruncate (file_name os fn) (map_size os c) ≡ true
      → os.mmap (file_name os fn) (map_size os c) ≡ some m
      → init os fn user n (idle mem errno)
        ≡ returned tt (fresh_state os fn (copy_config user n) m (idle mem errno))
unfolding init
init-idle os fn user n m mem errno small p q =
    rw (ltb_of_le 20 n small) (cc (create_returns os fn (copy_config user n) m mem errno p q))

-- `log2mem_init` with at most 20 bytes of configuration, in an unlocked process that has no
-- handle, returns and leaves a ready, unlocked process at row 0, whose map has the rounded
-- configuration and zeros behind the header. The file can be enlarged and mapped, and the rounded
-- configuration's sections fit an `int`.
pub init-IsFresh :
    (os : Os) (fn : Option (List ℕ)) (user : List ℕ) (n : ℕ) (m : Mem) (s : State)
    → n ≤ 20
    → CanInit os fn (copy_config user n) m s
    → (h : Handle) × (s' : State) × (init os fn user n s ≡ returned tt s')
      × IsFresh
          (round_config (copy_config user n))
          h
          (map_size os (round_config (copy_config user n)))
          s'
init-IsFresh os fn user n m s small can = (
  fresh_handle os fn (copy_config user n),
  fresh_state os fn (copy_config user n) m s,
  ap (init os fn user n) (idle_eq s can.no_handle can.lock_free)
      ∙ init-idle os fn user n m s.mem s.errno small can.truncates can.maps,
  fresh_state-IsFresh os fn (copy_config user n) m s can,
)
