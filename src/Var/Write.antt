-- ===== src/Var/Write.antt =====
-- What the writes to one variable do to its structure, at the address of the structure.
use log2mem.Prelude.{
  ℕ, ◌+◌, ◌^◌, ◌≤◌, ◌<◌, ◌≡◌, refl, ◌∙◌, ap, ◌⊎◌, inl, inr, bit_or, bit_and, ◌==◌, if◌then◌else◌,
  Bool-cases, Option, none, some, List, arith,
}
use log2mem.Memory.{Mem, load, store}
use log2mem.Memory.Frame.{
  Frame, Frame-trans, Frame-widen, load-Frame, read_bytes-Frame, store-Frame, load-store,
}
use log2mem.Element.{strncpy}
use log2mem.Element.Index.{strncpy-Frame, read_bytes-strncpy}
use log2mem.Var.{Kind, size, value_size, flags, text, raise_flags, write_text}
use log2mem.Var.Cell.{
  Stage, untouched, set_only, initialised, bits, Var, after_set, set, label_after, initialise,
  IsVar, members,
}

pub IsVar-Frame :
    (k : Kind) (a : ℕ) {lo hi : ℕ} {m m' : Mem} (x : Var)
    → (a + size k ≤ lo) ⊎ (hi ≤ a)
    → Frame lo hi m m'
    → IsVar k a m x
    → IsVar k a m' x
IsVar-Frame k a {lo = lo} {hi = hi} x out f v = record {
  value = load-Frame (value_size k) a {lo = lo} {hi = hi} (omega (arith, members k)) f ∙ v.value;
  stage = load-Frame 4 (a + flags k) {lo = lo} {hi = hi} (omega (arith, members k)) f ∙ v.stage;
  label =
      read_bytes-Frame 63 (a + text k) {lo = lo} {hi = hi} (omega (arith, members k)) f ∙ v.label;
  terminated = f (a + text k + 63) (omega (arith, members k)) ∙ v.terminated;
}

bits-lt : (t : Stage) → bits t < 4
bits-lt untouched = omega arith
bits-lt set_only = omega arith
bits-lt initialised = omega arith

-- The value is stored and the flags are raised.
module _ (k : Kind) (a b v : ℕ) (m : Mem) where
  abbrev pub m1 : Mem
  m1 = store (value_size k) a v m

  abbrev pub marked : Mem
  marked = raise_flags (a + flags k) b m1

  pub marked-Frame : Frame a (a + flags k + 4) m marked
  unfolding raise_flags
  marked-Frame =
      Frame-trans
        (Frame-widen (omega arith) (omega (arith, members k)) (store-Frame (value_size k) a v m))
        (Frame-widen (omega arith) (omega arith) (store-Frame 4 (a + flags k) _ m1))

  marked-IsVar :
      (t t' : Stage) (old : ℕ) (label : List ℕ)
      → v < 256 ^ value_size k
      → bit_or (bits t) b ≡ bits t'
      → IsVar k a m (record { stage = t; value = old; label = label })
      → IsVar k a marked (record { stage = t'; value = v; label = label })
  unfolding raise_flags
  marked-IsVar t t' old label small e x = record {
    value =
        load-Frame (value_size k) a (inl (omega (arith, members k)))
          (store-Frame 4 (a + flags k) _ m1)
        ∙ load-store (value_size k) a v m small;
    stage =
        load-store 4 (a + flags k) (bit_or (load 4 (a + flags k) m1) b) m1
          (omega (arith, raised, bits-lt t'))
        ∙ raised;
    label =
        read_bytes-Frame 63 (a + text k) (inr (omega (arith, members k))) marked-Frame ∙ x.label;
    terminated = marked-Frame (a + text k + 63) (inr (omega (arith, members k))) ∙ x.terminated;
  }
    where
      raised : bit_or (load 4 (a + flags k) m1) b ≡ bits t'
      raised =
          ap (λ t. bit_or t b)
            (load-Frame 4 (a + flags k) (inr (omega (arith, members k)))
                (store-Frame (value_size k) a v m)
              ∙ x.stage)
          ∙ e

pub write_text-Frame :
    (a : ℕ) (src : Option (List ℕ)) (m : Mem) → Frame a (a + 64) m (write_text a src m)
unfolding write_text
write_text-Frame a none m b h = refl
write_text-Frame a (some s) m b h =
    store-Frame 1 (a + 63) 0 (strncpy a 63 s m) b (omega arith)
    ∙ strncpy-Frame a 63 s m b (omega arith)

pub write_text-IsVar :
    (k : Kind) (a : ℕ) (src : Option (List ℕ)) (m : Mem) (x : Var)
    → IsVar k a m x
    → IsVar k a
        (write_text (a + text k) src m)
        (record { stage = x.stage; value = x.value; label = label_after src x.label })
unfolding write_text load
write_text-IsVar k a none m x v = v
write_text-IsVar k a (some s) m x v = record {
  value = load-Frame (value_size k) a (inl (omega (arith, members k))) frame ∙ v.value;
  stage = load-Frame 4 (a + flags k) (inl (omega (arith, members k))) frame ∙ v.stage;
  label =
      read_bytes-Frame 63 (a + text k) (inl (omega arith)) (store-Frame 1 (a + text k + 63) 0 m1)
      ∙ read_bytes-strncpy (a + text k) 63 s m;
  terminated = load_byte;
}
  where
    m1 : Mem
    m1 = strncpy (a + text k) 63 s m

    frame : Frame (a + text k) (a + text k + 64) m (store 1 (a + text k + 63) 0 m1)
    frame = write_text-Frame (a + text k) (some s) m

    load_byte : store 1 (a + text k + 63) 0 m1 (a + text k + 63) ≡ 0
    load_byte = omega (arith, load-store 1 (a + text k + 63) 0 m1 (omega arith))

module _ (k : Kind) (a v : ℕ) (m : Mem) (small : v < 256 ^ value_size k) where
  abbrev pub mark : ℕ → Mem
  mark b = marked k a b v m

  pub set-IsVar : (x : Var) → IsVar k a m x → IsVar k a (mark 2) (set v x)
  set-IsVar x e =
      marked-IsVar k a 2 v m x.stage (after_set x.stage) x.value x.label small (raise x.stage) e
    where
      raise : (t : Stage) → bit_or (bits t) 2 ≡ bits (after_set t)
      raise untouched = refl
      raise set_only = refl
      raise initialised = refl

  abbrev pub initialised_map : Option (List ℕ) → Mem
  initialised_map src =
      if bit_and (load 4 (a + flags k) m) 1 == 0 then write_text (a + text k) src (mark 3) else m

  pub init-IsVar :
      (src : Option (List ℕ)) (t : Stage) (old : ℕ) (label : List ℕ)
      → IsVar k a m (record { stage = t; value = old; label = label })
      → IsVar k a
          (initialised_map src)
          (initialise v src (record { stage = t; value = old; label = label }))
  init-IsVar src untouched old label e = rw (e.stage) (
      write_text-IsVar k a src (mark 3) _
        (marked-IsVar k a 3 v m untouched initialised old label small refl e))
  init-IsVar src set_only old label e = rw (e.stage) (
      write_text-IsVar k a src (mark 3) _
        (marked-IsVar k a 3 v m set_only initialised old label small refl e))
  init-IsVar src initialised old label e = rw (e.stage) e

  pub initialised_map-Frame : (src : Option (List ℕ)) → Frame a (a + size k) m (initialised_map src)
  initialised_map-Frame src = elim (Bool-cases (bit_and (load 4 (a + flags k) m) 1 == 0)) [
    | inl e ↦ rw (e) (
        Frame-trans (Frame-widen (omega arith) (omega (arith, members k)) (marked-Frame k a 3 v m))
          (Frame-widen (omega arith) (omega (arith, members k))
            (write_text-Frame (a + text k) src (mark 3))))
    | inr e ↦ rw (e) (λ b h. refl)
  ]
