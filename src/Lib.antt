-- ===== src/Lib.antt =====
-- log2mem: logging into a memory-mapped file. A program calls the library in liblog2mem/, which keeps
-- rows, counters and variables in a file that other processes can map and read.
--
-- The program's parts, and the files that model them:
--   * liblog2mem/log2mem.c, initialisation (`log2mem_init`, `__log2mem_create`, `log2mem_attach`,
--     `MEMLOG_PREPARE_PTR`, `__default_log2mem_init`): Create.antt and Init.antt, with the process in
--     State.antt and what an initialised process has in Ready.antt and its children;
--   * the layout of the map (`log2mem_calculate_layout`, `round_up_next_power_of_2_uint`): Layout.antt
--     and Round.antt;
--   * rows (`__log2mem_push`, `__log2mem_push_str`, `__log2mem_init_row`, `log2mem_write`,
--     `log2mem_append_…`, `log2mem_time_event4`): Row.antt, Row/Log.antt and Row/Event.antt, with the
--     abstract view in Ring.antt: a ring of entries, each an id with its items;
--   * counters (`log2mem_counter_…`): Counter.antt, with the abstract view in Counter/Bank.antt;
--   * variables (`log2mem_var_double_…`, `log2mem_var_int_…`): Var.antt, with the abstract view in
--     Var/Cell.antt;
--   * timestamps (`__log2mem_time`, `log2mem_ts_to_…`): Time.antt;
--   * the tool util/log2memutil.c, which attaches a map in a process of its own: `main`, `parse_args`
--     and `help` in Util/Main.antt, the arguments that set variables (`process_set_var_arg`,
--     `set_var_…`) in Util/Args.antt, Util/Named.antt and Util/ByName.antt, `print_rows` in
--     Util/Rows.antt and Util/Item.antt, `print_counters` and `print_vars` in Util/Sections.antt,
--     `print_summary` in Util/Summary.antt, with the conversions in Util/Format.antt; what the output
--     looks like to its reader is in Util/Shown.antt;
--   * several threads of one process in `log2mem_init` and `__log2mem_init_row`, with the lock of
--     liblog2mem/log2mem_atomic_gcc.h: Threads.antt, as steps of any thread in any order, with what
--     every order keeps in Threads/Invariant.antt; Threads/Alone.antt and Threads/Within.antt
--     tie the steps to Init.antt and Row/Log.antt;
--   * the structures and constants of liblog2mem/log2mem/log2mem.h and log2mem_dev.h: Abi.antt,
--     Config.antt and Layout.antt.
--
-- Db.antt puts the abstract views together: the contents of a map, what each call makes of them, and
-- the refinement of sequences of calls. Changes.antt says which sections an operation writes.
--
-- Every operation first sees to it that the handle is set (Init.prepare_ptr); then it reads the
-- configuration in the header of the map and changes bytes of the map. The map is a function from
-- addresses to bytes (Memory.antt), at addresses relative to its start, with loads and stores as
-- x86-64 makes them: little endian, 4-byte int, 8-byte long and pointers. Machine words are natural
-- numbers below a power of two with their wrap-around written out (Prelude/Word.antt). An operation
-- is a function from a state to an outcome (State.antt): it returns, calls exit, spins on a lock that
-- nobody frees, or does what C leaves undefined. What the C library and the kernel answer during one
-- call is the record Os, an argument. Floating-point values are bit patterns.
--
-- Outside Threads.antt a call runs without interruption. There a test of the handle, an
-- operation on the lock, the creation of the map, the taking of an id and a store are one step
-- each, and what one thread stores the next step reads: the model is sequentially consistent.
-- The loops of the library need no fuel: the routines recurse on the number of bytes or on the
-- list that they handle. In the tool two loops have fuel, since their step is read from the
-- data: the loop over the arguments, for which one round more than there are arguments is
-- enough, and the loop over the items of a row, for which one round more than the row has bytes
-- is enough on a map that the library has written. A part of the tool (Util/Run.antt,
-- Util/Tool.antt) ends with a result, by a read outside the map or of something never set, by
-- `exit`, or not within its fuel. The conversions of the C library that the tool asks for (`%f`,
-- `%lf` and `%i` of `sscanf`, `localtime_r`) are the record Libc, an argument; the decimal and
-- text conversions are written out.
--
-- Not modelled: the library's printing of error messages; the reordering of memory accesses by
-- compiler and processor, which matters to the unlocked test of `g_log2mem`; what two threads
-- leave in one slot when the ring comes round between their stores; the end of a map in the
-- library, whose accesses to an array without elements are undefined but which takes the file to
-- be as long as the sections (the tool's reads are checked against the file's size); examples/,
-- which only calls the library; qtgui/, a user interface on Qt; the build files.
pub mod Prelude
pub mod Memory
pub mod Round
pub mod Abi
pub mod Config
pub mod Layout
pub mod State
pub mod Create
pub mod Init
pub mod Ready
pub mod Time
pub mod Element
pub mod Counter
pub mod Var
pub mod Row
pub mod Ring
pub mod Start
pub mod Tests
pub mod Changes
pub mod Db
pub mod Util
pub mod Threads
