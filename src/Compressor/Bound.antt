-- ===== src/Compressor/Bound.antt =====
-- src/compressor.c: how long compressed data can be.
use cnano_log.Base.{
  ℕ, ◌+◌, ◌/◌, ◌^◌, ◌<◌, ◌≤◌, ◌≡◌, List, [], ◌∷◌, ◌++◌, some, length, length-append,
  length-replicate, ◌∙◌, All, arith, replicate,
}
use cnano_log.Base.Bytes.{le_bytes, length-le_bytes}
use cnano_log.Args.{Kind, int32, int64, uint32, uint64, double, pointer, char, width}
use cnano_log.Args.{Arg, scalar, text, encode, encode_args, IsArg, types}
use cnano_log.Packer.{nibble_bytes}
use cnano_log.Packer.RoundTrip.{magnitude, num_bytes_of_bounds, num_bytes_int32, num_bytes_uint32}
use cnano_log.Packer.Nibbles.{length-set_nibbles}
use cnano_log.Registry.{LogSite, used_types}
use cnano_log.Compressor.{count_non_string_args, compress_max_size, compress_entry_args}
use cnano_log.Compressor.Spec.{
  packed_size, packed_value, packed_ints, strings, nibbles_of, nibble_array, compressed,
  count_types_lem, compress_entry_args_lem,
}

pub packed_size-le-width : (k : Kind) (w : ℕ) → w < 256 ^ width k → packed_size k w ≤ width k
unfolding packed_size width
packed_size-le-width int32 w h = num_bytes_int32 w h
packed_size-le-width int64 w h = (num_bytes_of_bounds (magnitude w)).1
packed_size-le-width uint32 w h = num_bytes_uint32 w h
packed_size-le-width uint64 w h = (num_bytes_of_bounds w).1
packed_size-le-width double w h = omega arith
packed_size-le-width pointer w h = (num_bytes_of_bounds w).1
packed_size-le-width char w h = omega arith

payload_le :
    (args : List Arg)
    → All IsArg args
    → length (packed_ints args ++ strings args) ≤ length (encode_args args)
payload_le [] h = omega arith
payload_le (scalar k w ∷ args) (hw, h) = omega (
  arith,
  payload_le args h,
  packed_size-le-width k w hw,
  length-le_bytes (packed_size k w) (packed_value k w),
  length-le_bytes (width k) w,
  length-append (le_bytes (packed_size k w) (packed_value k w)) (packed_ints args),
  length-append (le_bytes (packed_size k w) (packed_value k w) ++ packed_ints args) (strings args),
  length-append (le_bytes (width k) w) (encode_args args),
  length-append (packed_ints args) (strings args),
)
payload_le (text s ∷ args) (hs, h) = omega (
  arith,
  payload_le args h,
  length-append (packed_ints args) (encode (text s) ++ strings args),
  length-append (encode (text s)) (strings args),
  length-append (encode (text s)) (encode_args args),
  length-append (packed_ints args) (strings args),
)

pub length-nibble_array :
    (args : List Arg) → length (nibble_array args) ≡ nibble_bytes (length (nibbles_of args))
unfolding nibble_array
length-nibble_array args =
    let n = nibble_bytes (length (nibbles_of args)) in
    length-set_nibbles (nibbles_of args) (replicate n 0) 0 ∙ length-replicate {A = ℕ} n 0

nibble_room :
    (site : LogSite) (args : List Arg)
    → used_types site ≡ types args
    → length (nibble_array args) ≡ nibble_bytes (count_non_string_args site)
unfolding count_non_string_args
nibble_room site args fits = length-nibble_array args ∙ rw (fits, count_types_lem args)

-- Argument data laid out for the site's types are compressed, into at most `compress_max_size`
-- bytes.
pub length-compress_entry_args :
    (site : LogSite) (args : List Arg) (rest : List ℕ)
    → used_types site ≡ types args
    → All IsArg args
    → (c : List ℕ) × (compress_entry_args (encode_args args ++ rest) site ≡ some c)
      × (length c ≤ compress_max_size site (length (encode_args args)))
unfolding compress_max_size compressed
length-compress_entry_args site args rest fits h = (
  compressed args,
  compress_entry_args_lem site args rest fits h,
  omega (
    arith,
    payload_le args h,
    nibble_room site args fits,
    length-append (nibble_array args) (packed_ints args ++ strings args),
  ),
)

-- A value that variable-byte packing does not shorten.
abbrev pub IsFull : Arg → Type 0
IsFull (scalar k w) = packed_size k w ≡ width k
IsFull (text s) = Unit

payload_eq :
    (args : List Arg)
    → All IsFull args
    → length (packed_ints args ++ strings args) ≡ length (encode_args args)
payload_eq [] h = omega arith
payload_eq (scalar k w ∷ args) (hw, h) = omega (
  arith,
  payload_eq args h,
  length-le_bytes (packed_size k w) (packed_value k w),
  length-le_bytes (width k) w,
  length-append (le_bytes (packed_size k w) (packed_value k w)) (packed_ints args),
  length-append (le_bytes (packed_size k w) (packed_value k w) ++ packed_ints args) (strings args),
  length-append (le_bytes (width k) w) (encode_args args),
  length-append (packed_ints args) (strings args),
)
payload_eq (text s ∷ args) (hs, h) = omega (
  arith,
  payload_eq args h,
  length-append (packed_ints args) (encode (text s) ++ strings args),
  length-append (encode (text s)) (strings args),
  length-append (encode (text s)) (encode_args args),
  length-append (packed_ints args) (strings args),
)

-- Where no integer is shortened, compressed data take exactly the bytes of the argument data and,
-- besides, half a byte for each argument that is not a string, rounded up to whole bytes.
pub length-compress_entry_args_full :
    (site : LogSite) (args : List Arg) (rest : List ℕ)
    → used_types site ≡ types args
    → All IsArg args
    → All IsFull args
    → (c : List ℕ) × (compress_entry_args (encode_args args ++ rest) site ≡ some c)
      × (length c ≡ (count_non_string_args site + 1) / 2 + length (encode_args args))
unfolding compressed nibble_bytes
length-compress_entry_args_full site args rest fits h full = (
  compressed args,
  compress_entry_args_lem site args rest fits h,
  omega (
    arith,
    payload_eq args full,
    nibble_room site args fits,
    length-append (nibble_array args) (packed_ints args ++ strings args),
  ),
)
