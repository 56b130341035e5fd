-- ===== src/Util/Shown.antt =====
-- What the tool is to print, said by the formats of util/log2memutil.c as a reader of the output
-- knows them, and not by the parts of its code.
pub mod Same
pub mod Rows
use log2mem.Prelude.{
  ℕ, zero, suc, ◌/◌, ◌%◌, ◌^◌, ◌==◌, if◌then◌else◌, bit_and, Bool, true, false, List, [], ◌∷◌, ◌++◌,
  codes,
}
use log2mem.State.{BrokenTime}
use log2mem.Create.{decimal, pad_left}
use log2mem.Row.Item.{Item}
use log2mem.Var.{Kind, double_var, int_var}
use log2mem.Util.Format.{Libc, Globals, show_int}
use log2mem.Util.Item.{
  Tag, filename, lineno, string, uint, int, ulong, long, float, double, char, no_case,
}
use log2mem.Util.Item.Show.{data_text}

abbrev pub join_onto : List ℕ → List (List ℕ) → List ℕ
join_onto s [] = s
join_onto s (x ∷ xs) = join_onto (s ++ x) xs

-- Texts one behind the other.
abbrev pub join : List (List ℕ) → List ℕ
join [] = []
join (x ∷ xs) = join_onto x xs

abbrev pub nth_tag : List Tag → ℕ → Tag
nth_tag [] n = no_case
nth_tag (t ∷ ts) zero = t
nth_tag (t ∷ ts) (suc n) = nth_tag ts n

-- The items' kinds 0 to 10.
abbrev pub kinds : List Tag
kinds =
    no_case ∷ filename ∷ string ∷ uint ∷ int ∷ ulong ∷ long ∷ float ∷ double ∷ char ∷ lineno ∷ []

-- Only the place of the call, a file name and a line, is not followed by a delimiter.
abbrev pub is_place : ℕ → Bool
is_place kind = if kind == 1 then true else if kind == 10 then true else false

abbrev pub shown_delim : Globals → Bool → List ℕ
shown_delim g false = []
shown_delim g true = if g.showdelim then g.delim else []

-- The items of a row one after another; the delimiter stands before each item that another one than
-- the place of the call comes before.
abbrev pub shown_items : Libc → Globals → Bool → List Item → List ℕ
shown_items lc g behind [] = []
shown_items lc g behind (x ∷ xs) =
    shown_delim g behind
    ++ data_text lc g (nth_tag kinds x.kind) x.bytes
    ++ shown_items lc g (if is_place x.kind then false else true) xs

-- `HH:MM:SS.`
abbrev pub shown_clock : BrokenTime → List ℕ
shown_clock t = join (
    pad_left 2 (decimal t.hour)
    ∷ codes ":"
    ∷ pad_left 2 (decimal t.min)
    ∷ codes ":"
    ∷ pad_left 2 (decimal t.sec)
    ∷ codes "."
    ∷ [])

-- Seconds stand from bit 30 of a timestamp on, 34 bits, and nanoseconds below. With the clock source
-- 4 the time is shown to the microsecond, with 8 to the nanosecond, and with 12, a counter, as a number.
abbrev pub shown_time : Libc → ℕ → ℕ → List ℕ
shown_time lc source ts =
    let clock = shown_clock (lc.localtime (ts / 2 ^ 30 % 2 ^ 34)) in
    if source == 4
    then join (clock ∷ pad_left 6 (decimal (ts % 2 ^ 30 / 1000)) ∷ codes " " ∷ [])
    else if source == 8
    then join (clock ∷ pad_left 9 (decimal (ts % 2 ^ 30)) ∷ codes " " ∷ [])
    else if source == 12
    then join (decimal ts ∷ codes " " ∷ [])
    else []

-- Bit 1 of the options asks for the thread, bits 2 and 3 are the clock source.
abbrev pub shown_thread : ℕ → ℕ → List ℕ
shown_thread options tid =
    if bit_and options 2 == 0 then [] else join (codes "[" ∷ show_int tid ∷ codes "] " ∷ [])

abbrev pub shown_head : Libc → Globals → ℕ → ℕ → ℕ → ℕ → List ℕ
shown_head lc g options id ts tid =
    if g.terse
    then []
    else join (
        show_int id
        ∷ codes " "
        ∷ shown_time lc (bit_and options 12) ts
        ∷ shown_thread options tid
        ∷ [])

-- A counter, and a variable of either kind. A label that is not empty is followed by a space.
abbrev pub shown_counter : ℕ → List ℕ → ℕ → List ℕ
shown_counter i label value = join (
    codes "counter["
    ∷ show_int i
    ∷ codes "] "
    ∷ label
    ∷ codes " : "
    ∷ show_int value
    ∷ codes "\n"
    ∷ [])

abbrev pub space_behind : List ℕ → List ℕ
space_behind [] = []
space_behind (x ∷ xs) = codes " "

abbrev pub shown_variable : Libc → Kind → ℕ → List ℕ → ℕ → List ℕ
shown_variable lc double_var i label value = join (
    codes "double["
    ∷ show_int i
    ∷ codes "] "
    ∷ label
    ∷ space_behind label
    ∷ codes ": "
    ∷ lc.show_double value
    ∷ codes "\n"
    ∷ [])
shown_variable lc int_var i label value = join (
    codes "int["
    ∷ show_int i
    ∷ codes "] "
    ∷ label
    ∷ space_behind label
    ∷ codes ": "
    ∷ show_int value
    ∷ codes "\n"
    ∷ [])

-- What is said of a name that no variable has.
abbrev pub shown_warning : Bool → List ℕ → List ℕ
shown_warning true name = []
shown_warning false name =
    join (codes "warning, no variable found with name \"" ∷ name ∷ codes "\"\n" ∷ [])

-- The line of a row: its id, time and thread unless the output is terse, and its items. A row without
-- items has none.
abbrev pub shown_line : Libc → Globals → ℕ → ℕ → List Item → ℕ → ℕ → List ℕ
shown_line lc g options id [] ts tid = []
shown_line lc g options id (x ∷ xs) ts tid =
    join (shown_head lc g options id ts tid ∷ shown_items lc g false (x ∷ xs) ∷ codes "\n" ∷ [])
