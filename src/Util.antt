-- ===== src/Util.antt =====
-- The command line tool, util/log2memutil.c: it attaches a map, prints its sections and sets variables.
pub mod Run
pub mod Format
pub mod Item
pub mod Rows
pub mod Sections
pub mod Summary
pub mod Tool
pub mod Args
pub mod Named
pub mod ByName
pub mod Main
pub mod Shown
