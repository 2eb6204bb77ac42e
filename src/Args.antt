-- ===== src/Args.antt =====
-- The arguments of one log call: the values behind the variadic list, and the bytes that stand for
-- them in a staging buffer (the layout that src/arg_packing.h writes and src/compressor.c reads).
use cnano_log.Base.{ℕ, ◌^◌, ◌<◌, List, [], ◌∷◌, ◌++◌, length}
use cnano_log.Base.Bytes.{le_bytes}
use cnano_log.Format.{ArgType}

-- The types whose values are integers of a fixed width.
pub data Kind : Type 0 where
  int32 int64 uint32 uint64 double pointer char : Kind

unfoldable pub kind_type : Kind → ArgType
kind_type int32 = ArgType.int32
kind_type int64 = ArgType.int64
kind_type uint32 = ArgType.uint32
kind_type uint64 = ArgType.uint64
kind_type double = ArgType.double
kind_type pointer = ArgType.pointer
kind_type char = ArgType.char

unfoldable pub width : Kind → ℕ
width int32 = 4
width int64 = 8
width uint32 = 4
width uint64 = 8
width double = 8
width pointer = 8
width char = 1

-- A number is the bit pattern of its value.
pub data Arg : Type 0 where
  scalar : Kind → ℕ → Arg
  text : List ℕ → Arg

abbrev pub type_of : Arg → ArgType
type_of (scalar k w) = kind_type k
type_of (text s) = ArgType.string

abbrev pub encode : Arg → List ℕ
encode (scalar k w) = le_bytes (width k) w
encode (text s) = le_bytes 4 (length s) ++ s

abbrev pub encode_args : List Arg → List ℕ
encode_args [] = []
encode_args (a ∷ args) = encode a ++ encode_args args

abbrev pub IsArg : Arg → Type 0
IsArg (scalar k w) = w < 256 ^ width k
IsArg (text s) = length s < 2 ^ 32

abbrev pub types : List Arg → List ArgType
types [] = []
types (a ∷ args) = type_of a ∷ types args
