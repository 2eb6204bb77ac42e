-- ===== src/Tests/Codec.antt =====
-- Packing, compression and decompression on concrete arguments.
use cnano_log.Base.{
  ℕ, ◌+◌, ◌/◌, ◌-◌, ◌%◌, ◌^◌, ◌<◌, ◌≤◌, ◌≡◌, refl, ◌⊎◌, inl, List, [], ◌∷◌, ◌++◌, some, length,
  take, drop, All, arith, if◌then◌else◌, ltb, ◌==◌,
}
use cnano_log.Base.Bytes.{le_bytes}
use cnano_log.Outcome.{done, rejected}
use cnano_log.Format.{ArgType}
use cnano_log.Args.{int32, int64, kind_type, width}
use cnano_log.Args.{Arg, scalar, text, encode_args, IsArg, types}
use cnano_log.Packer.{
  pack_uint64, unpack_uint64, pack_int64, unpack_int64, set_nibble, get_nibble, num_bytes_of,
  is_negative64, negate64,
}
use cnano_log.Packer.RoundTrip.{unpack_uint64-pack_uint64, unpack_int64-pack_int64, magnitude}
use cnano_log.Packer.Nibbles.{get_nibble-set_nibble}
use cnano_log.Registry
use cnano_log.Registry.{LogSite, zero_site}
use cnano_log.Compressor.{compress_entry_args, compress_max_size, count_non_string_args}
use cnano_log.Compressor.Spec.{packed_size, compressed, compress_entry_args_lem}
use cnano_log.Compressor.Bound.{IsFull, length-compress_entry_args, length-compress_entry_args_full}
use cnano_log.ArgPacking.{arg_pack_write_fast}
use cnano_log.ArgPacking.Laws.{va_list, arg_pack_write_fast_lem}
use cnano_log.Decompress.{DictEntry, used_types, decompress_entry_args}
use cnano_log.Decompress.ReadInts.{IsNarrow}
use cnano_log.Decompress.RoundTrip.{decompress-compress}
use cnano_log.Decompress.Wide.{HasWide, decompress-compress_wide}

-- A call with -1, a string of two bytes and a small 64-bit integer.
abbrev args : List Arg
args = scalar int32 4294967295 ∷ (text (104 ∷ (105 ∷ [])) ∷ (scalar int64 300 ∷ []))

abbrev arg_types : List ArgType
arg_types = ArgType.int32 ∷ (ArgType.string ∷ (ArgType.int64 ∷ []))

abbrev site : LogSite
site = record zero_site { num_args = 3; arg_types = arg_types }

site-types : Registry.used_types site ≡ types args
unfolding kind_type
site-types = refl

args-IsArg : All IsArg args
unfolding width
args-IsArg = (omega arith, (omega arith, (omega arith, tt)))

args-IsNarrow : All IsNarrow args
unfolding magnitude
args-IsNarrow = (tt, (tt, (ground arith, tt)))

compress_entry_args_lem_example :
    compress_entry_args (encode_args args ++ (9 ∷ [])) site ≡ some (compressed args)
compress_entry_args_lem_example = compress_entry_args_lem site args (9 ∷ []) site-types args-IsArg

abbrev dict : DictEntry
dict = record {
  log_id = 0;
  log_level = 0;
  num_args = 3;
  line_number = 1;
  filename = [];
  format = [];
  arg_types = arg_types;
}

dict-types : used_types dict ≡ types args
unfolding kind_type
dict-types = refl

args-fit : length (encode_args args) ≤ 64
unfolding width le_bytes
args-fit = omega arith

decompress-compress_example :
    (c : List ℕ) × (compress_entry_args (encode_args args ++ (9 ∷ [])) site ≡ some c)
    × (decompress_entry_args (c ++ (1 ∷ (2 ∷ []))) (length c) 64 dict ≡ done (encode_args args))
decompress-compress_example =
    decompress-compress site dict args 64 (9 ∷ []) (1 ∷ (2 ∷ [])) site-types dict-types args-IsArg
      args-IsNarrow args-fit

length-compress_entry_args_example :
    (c : List ℕ) × (compress_entry_args (encode_args args ++ []) site ≡ some c)
    × (length c ≤ compress_max_size site (length (encode_args args)))
length-compress_entry_args_example = length-compress_entry_args site args [] site-types args-IsArg

arg_pack_write_fast_lem_example :
    arg_pack_write_fast 10 (types args) (va_list args)
    ≡ (if ltb 10 (length (encode_args args)) then rejected else done (encode_args args))
arg_pack_write_fast_lem_example = arg_pack_write_fast_lem 10 args args-IsArg

-- INT64_MIN takes eight bytes.
abbrev wide_args : List Arg
wide_args = scalar int64 9223372036854775808 ∷ []

abbrev wide_types : List ArgType
wide_types = ArgType.int64 ∷ []

abbrev wide_site : LogSite
wide_site = record zero_site { num_args = 1; arg_types = wide_types }

abbrev wide_dict : DictEntry
wide_dict = record dict { num_args = 1; arg_types = wide_types }

wide_site-types : Registry.used_types wide_site ≡ types wide_args
unfolding kind_type
wide_site-types = refl

wide_dict-types : used_types wide_dict ≡ types wide_args
unfolding kind_type
wide_dict-types = refl

wide_args-IsArg : All IsArg wide_args
unfolding width
wide_args-IsArg = (omega arith, tt)

wide_args-HasWide : HasWide wide_args
unfolding magnitude is_negative64 negate64
wide_args-HasWide = inl (omega arith)

wide_args-IsFull : All IsFull wide_args
unfolding packed_size num_bytes_of width magnitude is_negative64 negate64
wide_args-IsFull = (refl, tt)

decompress-compress_wide_example :
    (c : List ℕ) × (compress_entry_args (encode_args wide_args ++ []) wide_site ≡ some c)
    × (decompress_entry_args (c ++ []) (length c) 64 wide_dict ≡ rejected)
decompress-compress_wide_example =
    decompress-compress_wide wide_site wide_dict wide_args 64 [] [] wide_site-types wide_dict-types
      wide_args-IsArg wide_args-HasWide

length-compress_entry_args_full_example :
    (c : List ℕ) × (compress_entry_args (encode_args wide_args ++ []) wide_site ≡ some c)
    × (length c ≡ (count_non_string_args wide_site + 1) / 2 + length (encode_args wide_args))
length-compress_entry_args_full_example =
    length-compress_entry_args_full wide_site wide_args [] wide_site-types wide_args-IsArg
      wide_args-IsFull

unpack_uint64-pack_uint64_example :
    (take 2 ((pack_uint64 (9 ∷ (8 ∷ [])) 70000).0) ≡ 9 ∷ (8 ∷ []))
    × (unpack_uint64
          (drop 2 ((pack_uint64 (9 ∷ (8 ∷ [])) 70000).0) ++ (5 ∷ []))
          ((pack_uint64 (9 ∷ (8 ∷ [])) 70000).1)
        ≡ some (70000, 5 ∷ []))
    × (1 ≤ (pack_uint64 (9 ∷ (8 ∷ [])) 70000).1)
    × ((pack_uint64 (9 ∷ (8 ∷ [])) 70000).1 ≤ 8)
    × (70000 < 256 ^ (pack_uint64 (9 ∷ (8 ∷ [])) 70000).1)
    × (((pack_uint64 (9 ∷ (8 ∷ [])) 70000).1 ≡ 1)
        ⊎ (256 ^ ((pack_uint64 (9 ∷ (8 ∷ [])) 70000).1 - 1) ≤ 70000))
unpack_uint64-pack_uint64_example =
    unpack_uint64-pack_uint64 (9 ∷ (8 ∷ [])) 70000 (5 ∷ []) (omega arith)

unpack_int64-pack_int64_example :
    unpack_int64
      ((pack_int64 [] 9223372036854775808).0 ++ [])
      ((pack_int64 [] 9223372036854775808).1)
      ((pack_int64 [] 9223372036854775808).2)
    ≡ some (9223372036854775808, [])
unpack_int64-pack_int64_example = unpack_int64-pack_int64 9223372036854775808 [] (omega arith)

get_nibble-set_nibble_example :
    get_nibble (set_nibble (0x21 ∷ (0x43 ∷ [])) 2 0x8d) 3
    ≡ (if 2 == 3 then 0x8d % 16 else get_nibble (0x21 ∷ (0x43 ∷ [])) 3)
get_nibble-set_nibble_example =
    get_nibble-set_nibble (0x21 ∷ (0x43 ∷ [])) 2 3 0x8d (omega arith, (omega arith, tt))
      (omega arith) (omega arith)
