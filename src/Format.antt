-- ===== src/Format.antt =====
-- include/cnanolog_format.h: argument type codes, limits and the sizes of the packed headers.
use cnano_log.Base.{ℕ, ◌==◌, if◌then◌else◌}

-- `cnanolog_arg_type_t`. `other` is a value that the enumeration does not name.
pub data ArgType : Type 0 where
  arg_none int32 int64 uint32 uint64 double string pointer char : ArgType
  other : ℕ → ArgType

unfoldable pub of_code : ℕ → ArgType
of_code n =
    if n == 0
    then arg_none
    else if n == 1
    then int32
    else if n == 2
    then int64
    else if n == 3
    then uint32
    else if n == 4
    then uint64
    else if n == 5
    then double
    else if n == 6
    then string
    else if n == 7
    then pointer
    else if n == 8
    then char
    else other n

unfoldable pub code : ArgType → ℕ
code arg_none = 0
code int32 = 1
code int64 = 2
code uint32 = 3
code uint64 = 4
code double = 5
code string = 6
code pointer = 7
code char = 8
code (other n) = n

abbrev pub max_args : ℕ
max_args = 50

-- `sizeof(cnanolog_entry_header_t)`, with timestamps.
abbrev pub entry_header_size : ℕ
entry_header_size = 14
