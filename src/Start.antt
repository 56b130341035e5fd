-- ===== src/Start.antt =====
-- What a map holds that `log2mem_init` has just made: no row, no counts, no labels and no variables.
use log2mem.Prelude.{ℕ, ◌+◌, ◌*◌, ◌≤◌, ◌<◌, ◌≡◌, replicate, arith}
use log2mem.Memory.Frame.{load_of_zeros, read_bytes_of_zeros}
use log2mem.Config.{Config}
use log2mem.State.{Handle, State}
use log2mem.Ready.{IsMapped}
use log2mem.Ready.Fresh.{IsFresh}
use log2mem.Row.Slot.{slot, slot_bounds}
use log2mem.Ring.{empty_log, Represents}
use log2mem.Counter.Bank.{Bank, HasBank, counter_cell, label_cell}
use log2mem.Counter.Refine.{counter-Bounds}
use log2mem.Var.{Kind, double_var, int_var, base, size, value_size, flags, text}
use log2mem.Var.Cell.{Vars, untouched, HasVars, cell, members, array_bounds}
use log2mem.Element.Index.{cells-le}

abbrev pub no_counts : Bank
no_counts i = record { value = 0; used = 0; label = replicate 63 0 }

abbrev pub no_vars : Vars
no_vars i = record { stage = untouched; value = 0; label = replicate 63 0 }

module _ {c : Config} {h : Handle} {n : ℕ} {s : State} (f : IsFresh c h n s) where
  -- Behind the header, all bytes of the sections are zero.
  zero_at : (lo len : ℕ) → 256 ≤ lo → lo + len ≤ n → (b : ℕ) → lo ≤ b → b < lo + len → s.mem b ≡ 0
  zero_at lo len p q b x y = f.zeros b (omega arith) (omega arith)

  abbrev v : IsMapped c h
  v = f.ready.set_up.is_mapped

  behind : h.double_vars ≤ n
  behind = omega (arith, f.enough, v.ints_at)

  -- A fresh process holds the empty log.
  pub fresh-Represents : Represents c h s.mem empty_log
  fresh-Represents = record {
    config = f.ready.config;
    next = f.no_row;
    entries = λ i p. record {
      id = load_of_zeros 4 (slot c h i + 16) (
          zero_at _ 4 (omega (arith, slot_bounds i v p))
            (omega (arith, slot_bounds i v p, v.doubles_at, behind)));
      row = record {
        datalen = load_of_zeros 4 (slot c h i + 20) (
            zero_at _ 4 (omega (arith, slot_bounds i v p))
              (omega (arith, slot_bounds i v p, v.doubles_at, behind)));
        payload = tt;
      };
      room = omega arith;
    };
  }

  -- In a fresh process all counters are zero, unmarked and without a label.
  pub fresh-HasBank : HasBank c h s.mem no_counts
  fresh-HasBank = record {
    config = f.ready.config;
    cells = λ i p.
        let here = counter-Bounds f.ready.set_up i p in
        record {
          value =
              load_of_zeros 4 (counter_cell h i)
                (zero_at _ 4 (omega (arith, here)) (omega (arith, here, behind)));
          used =
              load_of_zeros 4 (counter_cell h i + 4)
                (zero_at _ 4 (omega (arith, here)) (omega (arith, here, behind)));
          label =
              read_bytes_of_zeros 63 (label_cell h i)
                (zero_at _ 63 (omega (arith, here)) (omega (arith, here, behind)));
          terminated =
              f.zeros (label_cell h i + 63) (omega (arith, here)) (omega (arith, here, behind));
        };
  }

  array_end : (k : Kind) → base k h + c.num_vars * size k ≤ n
  unfolding base size
  array_end double_var = omega (arith, f.enough, v.ints_at)
  array_end int_var = omega (arith, f.enough)

  -- In a fresh process all variables of either kind are untouched, zero and without a label.
  pub fresh-HasVars : (k : Kind) → HasVars k c h s.mem no_vars
  fresh-HasVars k = record {
    config = f.ready.config;
    vars = λ i p.
        let room = cells-le i c.num_vars (size k) p in
        let far = array_bounds k v in
        record {
          value = load_of_zeros (value_size k) (cell k h i) (
              zero_at _ (value_size k) (omega (arith, far))
                (omega (arith, members k, room, array_end k)));
          stage =
              load_of_zeros 4 (cell k h i + flags k)
                (zero_at _ 4 (omega (arith, far)) (omega (arith, members k, room, array_end k)));
          label =
              read_bytes_of_zeros 63 (cell k h i + text k)
                (zero_at _ 63 (omega (arith, far)) (omega (arith, members k, room, array_end k)));
          terminated =
              f.zeros (cell k h i + text k + 63) (omega (arith, far))
                (omega (arith, members k, room, array_end k));
        };
  }
