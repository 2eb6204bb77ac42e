-- ===== src/Decompress/RoundTrip.antt =====
-- tools/decompressor.c against src/compressor.c: decompression undoes compression.
use cnano_log.Base.{
  ℕ, ◌+◌, ◌/◌, ◌<◌, ◌≤◌, ◌≡◌, refl, List, [], ◌∷◌, ◌++◌, some, Bool, true, false, ltb, ltb_iff,
  ==_refl, length, length-append, length-replicate, All, All-replicate, append_assoc, arith,
  replicate,
}
use cnano_log.Base.Bytes.{IsByte}
use cnano_log.Outcome.{done}
use cnano_log.Args.{int32, int64, uint32, uint64, double, pointer, char}
use cnano_log.Args.{Arg, scalar, text, encode_args, IsArg, types}
use cnano_log.Packer.{nibble_bytes}
use cnano_log.Packer.RoundTrip.{num_bytes_of_bounds}
use cnano_log.Packer.Nibbles.{Holds, set_nibbles-Holds, holds_below, holds_at}
use cnano_log.Registry
use cnano_log.Registry.{LogSite}
use cnano_log.Compressor.{sign_nibble, compress_entry_args}
use cnano_log.Compressor.Spec.{
  packed_ints, strings, nibble_of, nibbles_of, nibble_array, compressed, count_types_lem,
  compress_entry_args_lem,
}
use cnano_log.Compressor.Bound.{length-nibble_array}
use cnano_log.Decompress.{DictEntry, used_types, decompress_entry_args, count_non_string_args}
use cnano_log.Decompress.ReadInts.{IsNarrow, read-append, read_ints_lem}
use cnano_log.Decompress.WriteArgs.{write_args_lem}

pub sign_nibble-lt : (n : ℕ) (neg : Bool) → n ≤ 8 → sign_nibble n neg < 16
unfolding sign_nibble holds_below
sign_nibble-lt n true h =
    (ltb_iff _ 16).0 (holds_at (λ x. ltb (sign_nibble x true) 16) 9 refl (omega arith))
sign_nibble-lt n false h =
    (ltb_iff _ 16).0 (holds_at (λ x. ltb (sign_nibble x false) 16) 9 refl (omega arith))

pub nibbles_small : (args : List Arg) → All (λ v. v < 16) (nibbles_of args)
unfolding nibble_of
nibbles_small [] = tt
nibbles_small (scalar int32 w ∷ args) =
    (sign_nibble-lt _ _ ((num_bytes_of_bounds _).1), nibbles_small args)
nibbles_small (scalar int64 w ∷ args) =
    (sign_nibble-lt _ _ ((num_bytes_of_bounds _).1), nibbles_small args)
nibbles_small (scalar uint32 w ∷ args) = (omega (arith, num_bytes_of_bounds w), nibbles_small args)
nibbles_small (scalar uint64 w ∷ args) = (omega (arith, num_bytes_of_bounds w), nibbles_small args)
nibbles_small (scalar pointer w ∷ args) = (omega (arith, num_bytes_of_bounds w), nibbles_small args)
nibbles_small (scalar double w ∷ args) = (omega arith, nibbles_small args)
nibbles_small (scalar char w ∷ args) = (omega arith, nibbles_small args)
nibbles_small (text s ∷ args) = nibbles_small args

pub nibble_array-Holds : (args : List Arg) → Holds (nibble_array args) 0 (nibbles_of args)
unfolding nibble_array nibble_bytes
nibble_array-Holds args =
    let n = length (nibbles_of args) in
    set_nibbles-Holds (nibbles_of args) (replicate ((n + 1) / 2) 0) 0
      (All-replicate IsByte ((n + 1) / 2) 0 (omega arith)) (nibbles_small args)
      (omega (arith, length-replicate {A = ℕ} ((n + 1) / 2) 0))

-- What the decompressor makes of the data that compression writes for the arguments.
pub decompress-compressed :
    (dict : DictEntry) (args : List Arg) (size : ℕ) (rest : List ℕ)
    → used_types dict ≡ types args
    → All IsArg args
    → All IsNarrow args
    → length (encode_args args) ≤ size
    → decompress_entry_args (compressed args ++ rest) (length (compressed args)) size dict
      ≡ done (encode_args args)
unfolding decompress_entry_args compressed count_non_string_args
decompress-compressed dict args size rest fits h narrow room =
    let nb = nibble_bytes (length (nibbles_of args)) in
    let payload = packed_ints args ++ strings args in
    let len = length (nibble_array args ++ payload) in
    let whole = length-append (nibble_array args) payload in
    let parts = length-append (packed_ints args) (strings args) in
    let nl : length (nibble_array args) ≡ nb = length-nibble_array args in
    let enough : ltb len nb ≡ false = ground (arith, whole, nl) in
    let (j, r) =
      read_ints_lem (nibble_array args) len args (0 + nb) (nb + length (packed_ints args)) 0
        (strings args ++ rest) [] (nibble_array-Holds args) h narrow (omega arith)
        (omega (arith, whole, parts, nl)) in
    let w =
      write_args_lem size len args (nb + length (packed_ints args)) len rest [] h
        (omega (arith, whole, parts, nl)) (omega arith) (omega arith) in
    rw (
      fits,
      count_types_lem args,
      enough,
      append_assoc (nibble_array args) payload rest,
      read-append nb (nibble_array args) (payload ++ rest) 0 nl,
      append_assoc (packed_ints args) (strings args) rest,
      r,
      w,
      ==_refl len,
    )

-- Argument data of a log site, whatever follows them in the staging buffer, are compressed; and the
-- decompressor, with the same argument types, restores exactly the argument data from the compressed
-- bytes, whatever follows those. The 64-bit integers must have a magnitude below 2^56, and the
-- output buffer must hold the data.
pub decompress-compress :
    (site : LogSite) (dict : DictEntry) (args : List Arg) (size : ℕ) (after rest : List ℕ)
    → Registry.used_types site ≡ types args
    → used_types dict ≡ types args
    → All IsArg args
    → All IsNarrow args
    → length (encode_args args) ≤ size
    → (c : List ℕ) × (compress_entry_args (encode_args args ++ after) site ≡ some c)
      × (decompress_entry_args (c ++ rest) (length c) size dict ≡ done (encode_args args))
decompress-compress site dict args size after rest fs fd h narrow room = (
  compressed args,
  compress_entry_args_lem site args after fs h,
  decompress-compressed dict args size rest fd h narrow room,
)
