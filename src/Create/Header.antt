-- ===== src/Create/Header.antt =====
-- What a new memory map holds: the header's fields, and zeros everywhere behind the header.
use log2mem.Prelude.{ℕ, ◌+◌, ◌-◌, ◌<◌, ◌≡◌, ◌∙◌, inl, inr, arith}
use log2mem.Prelude.{List, [], ◌∷◌, ◌++◌, codes, take, length-append, length-take}
use log2mem.Memory.{Mem, load, store, fill}
use log2mem.Memory.Frame.{
  Frame, Frame-widen, store-Frame, fill-Frame, write_bytes-Frame, load-Frame,
}
use log2mem.Memory.Frame.{load-store_ne, load-store, field_laws}
use log2mem.Config.{Config, IsConfig, load_config, store_config}
use log2mem.Config.Bytes.{store_config-Frame, load_config_ext, load_config-store_config}
use log2mem.State.{Os}
use log2mem.Create.{write_header, snprintf, date_text, memlog_version, decimal}

snprintf-Frame :
    (a n : ℕ) (text : List ℕ) (m : Mem) → 0 < n → Frame a (a + n) m (snprintf a n text m)
unfolding snprintf
snprintf-Frame a n text m pos =
    Frame-widen (omega arith)
      (omega (arith, length-append (take (n - 1) text) (0 ∷ []), length-take (n - 1) text))
      (write_bytes-Frame a (take (n - 1) text ++ (0 ∷ [])) m)

module _ (os : Os) (c : Config) (m0 : Mem) where
  abbrev m1 : Mem
  m1 = snprintf 0 24 (codes "log2mem memmap version " ++ decimal memlog_version) m0

  abbrev m5 : Mem
  m5 = store 4 56 64 (store 4 24 1 (store 4 52 memlog_version (store 1 23 0 m1)))

  abbrev m6 : Mem
  m6 = store_config 32 c m5

  abbrev m7 : Mem
  m7 = store 4 28 0 m6

  abbrev m8 : Mem
  m8 = fill 60 32 0 m7

  -- The date is written last, behind all other fields.
  date-Frame : Frame 60 92 m7 (write_header os c m0)
  unfolding write_header
  date-Frame b h =
      store-Frame 1 91 0 (snprintf 60 31 (date_text os.localtime) m8) b (omega arith)
      ∙ snprintf-Frame 60 31 (date_text os.localtime) m8 (omega arith) b (omega arith)
      ∙ fill-Frame 60 32 0 m7 b (omega arith)

  -- Nothing behind the header's 92 bytes is written.
  pub write_header-Frame : Frame 0 92 m0 (write_header os c m0)
  write_header-Frame b h =
      date-Frame b (omega arith)
      ∙ store-Frame 4 28 0 m6 b (omega arith)
      ∙ store_config-Frame 32 c m5 b (omega arith)
      ∙ store-Frame 4 56 64 _ b (omega arith)
      ∙ store-Frame 4 24 1 _ b (omega arith)
      ∙ store-Frame 4 52 memlog_version _ b (omega arith)
      ∙ store-Frame 1 23 0 m1 b (omega arith)
      ∙ snprintf-Frame 0 24 _ m0 (omega arith) b (omega arith)

  pub header-config : IsConfig c → load_config 32 (write_header os c m0) ≡ c
  header-config v =
      load_config_ext 32 {m = m6}
        (λ b p q. date-Frame b (omega arith) ∙ store-Frame 4 28 0 m6 b (omega arith))
      ∙ load_config-store_config 32 c m5 v

  pub header-nextrow : load 4 28 (write_header os c m0) ≡ 0
  header-nextrow =
      load-Frame 4 28 (inl (omega arith)) date-Frame ∙ load-store 4 28 0 m6 (omega arith)

  pub header-arch : load 4 56 (write_header os c m0) ≡ 64
  header-arch =
      load-Frame 4 56 (inl (omega arith)) date-Frame
      ∙ load-store_ne 4 56 4 28 0 m6 (inr (omega arith))
      ∙ load-Frame 4 56 (inr (omega arith)) (store_config-Frame 32 c m5)
      ∙ load-store 4 56 64 _ (omega arith)

  pub header-version : load 4 52 (write_header os c m0) ≡ memlog_version
  header-version =
      load-Frame 4 52 (inl (omega arith)) date-Frame
      ∙ load-store_ne 4 52 4 28 0 m6 (inr (omega arith))
      ∙ load-Frame 4 52 (inr (omega arith)) (store_config-Frame 32 c m5)
      ∙ grind field_laws
