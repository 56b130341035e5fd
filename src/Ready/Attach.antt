-- ===== src/Ready/Attach.antt =====
-- `log2mem_attach` of liblog2mem/log2mem.c: a second process finds the sections of a map where the
-- process that made it has put them.
use log2mem.Prelude.{ℕ, ◌≡◌, refl, ◌∙◌, ap, sym, Option, none, some, List, ==_of_eq}
use mathlib.Core.Path.{subst}
use log2mem.Memory.{Mem, load}
use log2mem.Config.{Config}
use log2mem.Layout.{calculate_layout}
use log2mem.State.{Handle, State, Os, MapResult, returned}
use log2mem.Create.{section_pointers, round_config}
use log2mem.Create.Header.{header-arch}
use log2mem.Init.{attach, attach_mapped}
use log2mem.Ready.{HasConfig, IsReady, IsMapped}
use log2mem.Ready.Fresh.{CanInit, fresh_map, fresh_handle, fresh_state-IsFresh}

-- The pointers that the configuration gives, without a file name.
abbrev pub attached_handle : ℕ → Config → Handle
attached_handle ps c = section_pointers (calculate_layout ps c) none

attach_of_mapped :
    (os : Os) (name : List ℕ) (m : Mem) (s : State)
    → os.attach_map name ≡ MapResult.mapped m
    → attach os name s ≡ attach_mapped os m s
unfolding attach
attach_of_mapped os name m s e =
    ap
      (λ (o : MapResult). elim o [
        | MapResult.stat_failed ↦ returned none s
        | MapResult.map_failed ↦ returned none s
        | MapResult.mapped m ↦ attach_mapped os m s
      ])
      e

-- A map of this architecture is attached with the pointers that the configuration in it gives.
pub attach-64 :
    (os : Os) (name : List ℕ) (m : Mem) (c : Config) (s : State)
    → os.attach_map name ≡ MapResult.mapped m
    → HasConfig c m
    → load 4 56 m ≡ 64
    → attach os name s
      ≡ returned
          (some (attached_handle os.page_size c))
          (record s { mem = m; handle = some (attached_handle os.page_size c) })
unfolding attach_mapped
attach-64 os name m c s e v p =
    attach_of_mapped os name m s e ∙ rw (==_of_eq (load 4 56 m) 64 p, v.loads)

-- The file's name does not matter to where the sections are.
pub unnamed-IsMapped :
    (ps : ℕ) (c : Config) (name : Option (List ℕ))
    → IsMapped c (section_pointers (calculate_layout ps c) name)
    → IsMapped c (attached_handle ps c)
unfolding section_pointers
unnamed-IsMapped ps c name v = record {
  counters_at = v.counters_at;
  rows_at = v.rows_at;
  labels_after = v.labels_after;
  doubles_at = v.doubles_at;
  ints_at = v.ints_at;
  ints_end = v.ints_end;
}

unnamed :
    (ps ps' : ℕ) (c : Config) (name : Option (List ℕ))
    → ps' ≡ ps
    → attached_handle ps' c
      ≡ record (section_pointers (calculate_layout ps c) name) { filename = none }
unfolding section_pointers
unnamed ps ps' c name page = ap (λ t. attached_handle t c) page

-- A process that attaches the map that another one has just made, under the conditions of
-- `CanInit` and with the same size of pages, gets the pointers of that one, and is ready.
pub attach-init :
    (os os' : Os) (fn : Option (List ℕ)) (name : List ℕ) (c : Config) (m : Mem) (s s' : State)
    → CanInit os fn c m s
    → os'.page_size ≡ os.page_size
    → os'.attach_map name ≡ MapResult.mapped (fresh_map os (round_config c) m)
    → (h : Handle) × (after : State) × (attach os' name s' ≡ returned (some h) after)
      × IsReady (round_config c) h after
      × (h ≡ record (fresh_handle os fn c) { filename = none })
attach-init os os' fn name c m s s' can page e =
    let made = fresh_state-IsFresh os fn c m s can in
    (
      attached_handle os'.page_size (round_config c),
      record s' {
        mem = fresh_map os (round_config c) m;
        handle = some (attached_handle os'.page_size (round_config c));
      },
      attach-64 os' name (fresh_map os (round_config c) m) (round_config c) s' e made.ready.config
          (header-arch os (round_config c) _),
      record {
        has_handle = refl;
        config = made.ready.config;
        set_up = record {
          rounded = made.ready.set_up.rounded;
          is_mapped =
              subst (λ ps. IsMapped (round_config c) (attached_handle ps (round_config c)))
                (sym page)
                (unnamed-IsMapped os.page_size (round_config c) _ made.ready.set_up.is_mapped);
          row_len_fits = made.ready.set_up.row_len_fits;
        };
      },
      unnamed os.page_size os'.page_size (round_config c) _ page,
    )
