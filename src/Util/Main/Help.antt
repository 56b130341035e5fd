-- ===== src/Util/Main/Help.antt =====
-- The texts of `help` and of `--version` in util/log2memutil.c.
use log2mem.Prelude.{ℕ, List, ◌++◌, codes}

abbrev pub help_text : List ℕ
help_text =
    codes "usage: log2mem-dump [MEMMAP-FILE] [OPTIONS]\n"
    ++ codes "\n"
    ++ codes "Options\n"
    ++ codes "  -s\t\t\tshow memmap summary\n"
    ++ codes "  -c\t\t\tshow counters\n"
    ++ codes "  -r\t\t\tshow rows\n"
    ++ codes "  -v\t\t\tshow variables\n"
    ++ codes "  -a\t\t\tshow all data sections\n"
    ++ codes "  -F DELIM \t\tuse DELIM as output delimiter for data values\n"
    ++ codes "  -z\t\t\tsuppress delimiter\n"
    ++ codes "  -t\t\t\tterse, only print data values\n"
    ++ codes "  --double[I]=N\t\tset var double[I] to value N\n"
    ++ codes "  --int[I]=N\t\tset var int[I] to value N\n"
    ++ codes "  --NAME=N\t\tset var with name NAME to value N\n"
    ++ codes "  --version\t\tversion info\n"

-- `PACKAGE_VERSION` is the version that configure.ac gives to `AC_INIT`.
abbrev pub package_version : List ℕ
package_version = codes "1.1"

abbrev pub version_text : List ℕ
version_text = codes "log2mem version: " ++ package_version ++ codes "\n"
