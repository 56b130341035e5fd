-- ===== src/Config/Bytes.antt =====
-- A configuration that is stored is loaded again unchanged.
use log2mem.Prelude.{ℕ, ◌+◌, ◌≤◌, ◌<◌, ◌≡◌, ◌∙◌, arith}
use log2mem.Memory.{Mem, load}
use log2mem.Memory.Frame.{Frame, store-Frame, load_ext, field_laws}
use log2mem.Config.{Config, IsConfig, load_config, store_config}

pub store_config-Frame : (a : ℕ) (c : Config) (m : Mem) → Frame a (a + 20) m (store_config a c m)
unfolding store_config
store_config-Frame a c m b h =
    store-Frame 4 (a + 16) c.num_vars _ b (omega arith)
    ∙ store-Frame 4 (a + 12) c.row_len _ b (omega arith)
    ∙ store-Frame 4 (a + 8) c.num_rows _ b (omega arith)
    ∙ store-Frame 4 (a + 4) c.num_counters _ b (omega arith)
    ∙ store-Frame 4 a c.options m b (omega arith)

pub load_config_ext :
    (a : ℕ) {m m' : Mem}
    → ((b : ℕ) → a ≤ b → b < a + 20 → m' b ≡ m b)
    → load_config a m' ≡ load_config a m
unfolding load_config
load_config_ext a {m = m} {m' = m'} h = λ i. record {
  options = load_ext 4 a (λ b p q. h b (omega arith) (omega arith)) i;
  num_counters = part 4 (omega arith) i;
  num_rows = part 8 (omega arith) i;
  row_len = part 12 (omega arith) i;
  num_vars = part 16 (omega arith) i;
}
  where
    part : (k : ℕ) → k ≤ 16 → load 4 (a + k) m' ≡ load 4 (a + k) m
    part k p = load_ext 4 (a + k) (λ b q r. h b (omega arith) (omega arith))

module _ (a : ℕ) (c : Config) (m : Mem) (v : IsConfig c) where
  stored_options : load 4 a (store_config a c m) ≡ c.options
  unfolding store_config
  stored_options = grind (field_laws, v.options_fit)

  stored_num_counters : load 4 (a + 4) (store_config a c m) ≡ c.num_counters
  unfolding store_config
  stored_num_counters = grind (field_laws, v.num_counters_fit)

  stored_num_rows : load 4 (a + 8) (store_config a c m) ≡ c.num_rows
  unfolding store_config
  stored_num_rows = grind (field_laws, v.num_rows_fit)

  stored_row_len : load 4 (a + 12) (store_config a c m) ≡ c.row_len
  unfolding store_config
  stored_row_len = grind (field_laws, v.row_len_fit)

  stored_num_vars : load 4 (a + 16) (store_config a c m) ≡ c.num_vars
  unfolding store_config
  stored_num_vars = grind (field_laws, v.num_vars_fit)

  -- A configuration of 32-bit fields that is stored at an address is the one that is loaded from
  -- it, field by field.
  pub load_config-store_config : load_config a (store_config a c m) ≡ c
  unfolding load_config
  load_config-store_config = λ i. record {
    options = stored_options i;
    num_counters = stored_num_counters i;
    num_rows = stored_num_rows i;
    row_len = stored_row_len i;
    num_vars = stored_num_vars i;
  }
