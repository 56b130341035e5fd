-- ===== src/Abi.antt =====
-- The structures of liblog2mem/log2mem/log2mem_dev.h as the x86-64 ABI lays them out, and the named
-- constants of the two headers.
use log2mem.Prelude.{ℕ, ◌+◌, ◌-◌, ◌*◌, ◌/◌, List, [], ◌∷◌, ◌≡◌, refl}
use Prim.Native.Nat.{max}

-- A member: its size and its alignment.
pub record Member : Type 0 where
  pub size : ℕ
  pub align : ℕ

abbrev int_member : Member
int_member = record { size = 4; align = 4 }

abbrev long_member : Member
long_member = record { size = 8; align = 8 }

abbrev char_member : Member
char_member = record { size = 1; align = 1 }

-- `char text[n]`
abbrev text_member : ℕ → Member
text_member n = record { size = n; align = 1 }

align_up : ℕ → ℕ → ℕ
align_up n a = (n + (a - 1)) / a * a

-- Where the members end, when the first of them is put at the first aligned offset from `at`.
end_of : ℕ → List Member → ℕ
end_of at [] = at
end_of at (f ∷ fs) = end_of (align_up at f.align + f.size) fs

alignment : List Member → ℕ
alignment [] = 1
alignment (f ∷ fs) = max f.align (alignment fs)

sizeof : List Member → ℕ
unfolding align_up end_of alignment
sizeof fs = align_up (end_of 0 fs) (alignment fs)

-- The offset of the member that follows `before`.
offset_after : List Member → Member → ℕ
unfolding align_up end_of
offset_after before f = align_up (end_of 0 before) f.align

abbrev log2mem_config_members : List Member
log2mem_config_members = int_member ∷ int_member ∷ int_member ∷ int_member ∷ int_member ∷ []

-- `desc`, `flags` and `nextrow`, `config`, `version`, `arch` and `datecreated`.
abbrev log2mem_mm_header_members : List Member
log2mem_mm_header_members =
    text_member 24
    ∷ int_member
    ∷ int_member
    ∷ record { size = 20; align = 4 }
    ∷ int_member
    ∷ int_member
    ∷ text_member 32
    ∷ []

abbrev log2mem_data_hdr_members : List Member
log2mem_data_hdr_members = char_member ∷ int_member ∷ []

abbrev log2mem_row_members : List Member
log2mem_row_members = int_member ∷ long_member ∷ int_member ∷ int_member ∷ []

abbrev log2mem_counter_members : List Member
log2mem_counter_members = int_member ∷ int_member ∷ []

abbrev log2mem_label_members : List Member
log2mem_label_members = text_member 64 ∷ []

abbrev log2mem_var_double_members : List Member
log2mem_var_double_members = long_member ∷ int_member ∷ text_member 64 ∷ []

abbrev log2mem_var_int_members : List Member
log2mem_var_int_members = int_member ∷ int_member ∷ text_member 64 ∷ []

-- The sizes that the code asks `sizeof` for.
abbrev pub sizeof_config : ℕ
sizeof_config = 20

abbrev pub sizeof_mm_header : ℕ
sizeof_mm_header = 92

abbrev pub sizeof_data_hdr : ℕ
sizeof_data_hdr = 8

abbrev pub sizeof_row : ℕ
sizeof_row = 24

abbrev pub sizeof_counter : ℕ
sizeof_counter = 8

abbrev pub sizeof_label : ℕ
sizeof_label = 64

abbrev pub sizeof_var_double : ℕ
sizeof_var_double = 80

abbrev pub sizeof_var_int : ℕ
sizeof_var_int = 72

sizes :
    (sizeof log2mem_config_members ≡ sizeof_config)
    × (sizeof log2mem_mm_header_members ≡ sizeof_mm_header)
    × (sizeof log2mem_data_hdr_members ≡ sizeof_data_hdr)
    × (sizeof log2mem_row_members ≡ sizeof_row)
    × (sizeof log2mem_counter_members ≡ sizeof_counter)
    × (sizeof log2mem_label_members ≡ sizeof_label)
    × (sizeof log2mem_var_double_members ≡ sizeof_var_double)
    × (sizeof log2mem_var_int_members ≡ sizeof_var_int)
unfolding sizeof
sizes = (refl, refl, refl, refl, refl, refl, refl, refl)
