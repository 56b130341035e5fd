-- ===== src/Var.antt =====
-- The variables: `log2mem_var_double_…` and `log2mem_var_int_…` of liblog2mem/log2mem.c, which differ
-- in the array and in the type of the value.
pub mod Cell
pub mod Write
pub mod Refine
pub mod Twice
pub mod Outside
use log2mem.Prelude.{ℕ, ◌+◌, ◌==◌, if◌then◌else◌, bit_and, bit_or, Option, none, some, List}
use log2mem.Memory.{Mem, load, store}
use log2mem.Abi.{sizeof_var_double, sizeof_var_int}
use log2mem.State.{Handle, Os, M, returned}
use log2mem.Init.{with_handle}
use log2mem.Element.{masked, element, strncpy, label_len, with_element}

pub data Kind : Type 0 where
  double_var : Kind
  int_var : Kind

unfoldable pub base : Kind → Handle → ℕ
base double_var h = h.double_vars
base int_var h = h.int_vars

unfoldable pub size : Kind → ℕ
size double_var = sizeof_var_double
size int_var = sizeof_var_int

-- The size of the member `value`, which is at offset 0, and the offsets of `flags` and `text`.
unfoldable pub value_size : Kind → ℕ
value_size double_var = 8
value_size int_var = 4

unfoldable pub flags : Kind → ℕ
flags double_var = 8
flags int_var = 4

unfoldable pub text : Kind → ℕ
text double_var = 12
text int_var = 8

-- `enum log2mem_bitflags`
abbrev pub log2mem_e_initialised : ℕ
log2mem_e_initialised = 1

abbrev pub log2mem_e_used : ℕ
log2mem_e_used = 2

unfoldable pub var_address : Kind → ℕ → Handle → Mem → ℕ
var_address k id h m = element (base k h) (size k) (masked id (load 4 48 m))

-- `flags |= bits`
unfoldable pub raise_flags : ℕ → ℕ → Mem → Mem
raise_flags a bits m = store 4 a (bit_or (load 4 a m) bits) m

unfoldable pub write_text : ℕ → Option (List ℕ) → Mem → Mem
write_text a none m = m
write_text a (some src) m = store 1 (a + 63) 0 (strncpy a 63 src m)

unfoldable pub init_var : Kind → ℕ → ℕ → Option (List ℕ) → Handle → Mem → Mem
init_var k id value src h m =
    let a = var_address k id h m in
    let m1 = store (value_size k) a value m in
    let m2 = raise_flags (a + flags k) (bit_or log2mem_e_used log2mem_e_initialised) m1 in
    let m3 = write_text (a + text k) src m2 in
    if bit_and (load 4 (a + flags k) m) log2mem_e_initialised == 0 then m3 else m

unfoldable pub set_var : Kind → ℕ → ℕ → Handle → Mem → Mem
set_var k id value h m =
    let a = var_address k id h m in
    raise_flags (a + flags k) log2mem_e_used (store (value_size k) a value m)

-- The functions of the interface for either kind. A value is its bit pattern; the label is without
-- its NUL, or `none` for the null pointer.
unfoldable pub var_init : Kind → Os → ℕ → ℕ → Option (List ℕ) → M (Unit {0})
var_init k os id value src = with_handle os tt (λ h s.
    with_element (load 4 48 s.mem)
      (returned tt (record s { mem = init_var k id value src h s.mem })))

unfoldable pub var_set : Kind → Os → ℕ → ℕ → M (Unit {0})
var_set k os id value = with_handle os tt (λ h s.
    with_element (load 4 48 s.mem) (returned tt (record s { mem = set_var k id value h s.mem })))

unfoldable pub var_get : Kind → Os → ℕ → M ℕ
var_get k os id = with_handle os 0 (λ h s.
    with_element (load 4 48 s.mem)
      (returned (load (value_size k) (var_address k id h s.mem) s.mem) s))

unfoldable pub var_used : Kind → Os → ℕ → M ℕ
var_used k os id = with_handle os 0 (λ h s.
    with_element (load 4 48 s.mem)
      (returned (bit_and (load 4 (var_address k id h s.mem + flags k) s.mem) log2mem_e_used) s))

abbrev pub var_double_init : Os → ℕ → ℕ → Option (List ℕ) → M (Unit {0})
var_double_init = var_init double_var

abbrev pub var_double_set : Os → ℕ → ℕ → M (Unit {0})
var_double_set = var_set double_var

abbrev pub var_double_get : Os → ℕ → M ℕ
var_double_get = var_get double_var

abbrev pub var_double_used : Os → ℕ → M ℕ
var_double_used = var_used double_var

abbrev pub var_int_init : Os → ℕ → ℕ → Option (List ℕ) → M (Unit {0})
var_int_init = var_init int_var

abbrev pub var_int_set : Os → ℕ → ℕ → M (Unit {0})
var_int_set = var_set int_var

abbrev pub var_int_get : Os → ℕ → M ℕ
var_int_get = var_get int_var

abbrev pub var_int_used : Os → ℕ → M ℕ
var_int_used = var_used int_var
