-- ===== src/Decompress/Wide.antt =====
-- tools/decompressor.c against src/compressor.c: the 64-bit integers that take eight bytes. Their
-- count, 8, and the sign flag, 0x08, are the same bit of the nibble.
use cnano_log.Base.{
  ℕ, ◌+◌, ◌^◌, ◌≤◌, ◌≡◌, refl, ◌∙◌, ◌⊎◌, inl, inr, List, [], ◌∷◌, ◌++◌, some, Bool, true, false,
  ltb, leb, if◌then◌else◌, length, length-append, All, append_assoc, arith, dec_lt,
}
use cnano_log.Base.Bytes.{length-le_bytes}
use cnano_log.Outcome.{Outcome, rejected}
use cnano_log.Args.{Kind, int32, int64, kind_type}
use cnano_log.Args.{Arg, scalar, text, encode_args, IsArg, types}
use cnano_log.Packer.{num_bytes_of, is_negative64, get_nibble, nibble_bytes, unpack_int64}
use cnano_log.Packer.RoundTrip.{magnitude}
use cnano_log.Packer.Nibbles.{Holds}
use cnano_log.Registry
use cnano_log.Registry.{LogSite}
use cnano_log.Compressor.{sign_nibble, compress_entry_args}
use cnano_log.Compressor.Spec.{
  packed, packed_size, packed_value, packed_ints, strings, nibble_of, nibbles_of, nibble_array,
  compressed, count_types_lem, compress_entry_args_lem,
}
use cnano_log.Compressor.Bound.{length-nibble_array}
use cnano_log.Decompress.{
  DictEntry, used_types, Ints, read_signed, read_int, read_ints, decompress_entry_args,
  count_non_string_args,
}
use cnano_log.Decompress.ReadInts.{IsNarrow, ints, read-append, read_int-scalar, read_ints_text}
use cnano_log.Decompress.RoundTrip.{nibble_array-Holds}

abbrev pub IsWide : Kind → ℕ → Type 0
IsWide int64 w = 2 ^ 56 ≤ magnitude w
IsWide _ w = ⊥

-- Some argument is a 64-bit integer of eight bytes.
abbrev pub HasWide : List Arg → Type 0
HasWide [] = ⊥
HasWide (scalar k w ∷ args) = IsWide k w ⊎ HasWide args
HasWide (text s ∷ args) = HasWide args

num_bytes_wide : (v : ℕ) → 2 ^ 56 ≤ v → num_bytes_of v ≡ 8
unfolding num_bytes_of
num_bytes_wide v h = ground arith

if_same : (b : Bool) → ◌≡◌ {A = Outcome Ints} (if b then rejected else rejected) rejected
if_same true = refl
if_same false = refl

IsNarrow-or_IsWide : (k : Kind) (w : ℕ) → IsNarrow (scalar k w) ⊎ IsWide k w
IsNarrow-or_IsWide int64 w = elim (dec_lt (magnitude w) (2 ^ 56)) [
  | yes h ↦ inl h
  | no h ↦ inr (omega arith)
]
IsNarrow-or_IsWide _ w = inl tt

module _ (nibs : List ℕ) (end_ptr : ℕ) where
  read_int-wide :
      (k : Kind) (w p i : ℕ) (mem vs : List ℕ)
      → IsWide k w
      → get_nibble nibs i ≡ nibble_of k w
      → read_int nibs end_ptr (kind_type k) (ints mem p i vs) ≡ rejected
  unfolding read_int read_signed kind_type nibble_of sign_nibble
  read_int-wide int32 w p i mem vs h nib = absurd h
  read_int-wide int64 w p i mem vs h nib =
      reject_signed 8 (is_negative64 w) (rw (num_bytes_wide (magnitude w) h) at nib)
    where
      reject_signed :
          (n : ℕ) (neg : Bool)
          → get_nibble nibs i ≡ sign_nibble 8 neg
          → read_signed nibs end_ptr n unpack_int64 (ints mem p i vs) ≡ rejected
      reject_signed n true e = rw (e, read_signed) (if_same (leb end_ptr p))
      reject_signed n false e = rw (e, read_signed) (if_same (leb end_ptr p))
  read_int-wide _ w p i mem vs h nib = absurd h

  -- Pass 1 stops with an error at the first such integer.
  read_ints-wide :
      (args : List Arg) (p i : ℕ) (rest vs : List ℕ)
      → Holds nibs i (nibbles_of args)
      → All IsArg args
      → HasWide args
      → p + length (packed_ints args) ≤ end_ptr
      → read_ints nibs end_ptr (types args) (ints (packed_ints args ++ rest) p i vs) ≡ rejected
  unfolding read_ints
  read_ints-wide [] p i rest vs nib h wide room = absurd wide
  read_ints-wide (scalar k w ∷ args) p i rest vs nib h (inl wide) room =
      rw (read_int-wide k w p i ((packed k w ++ packed_ints args) ++ rest) vs wide nib.0)
  read_ints-wide (scalar k w ∷ args) p i rest vs nib h (inr wide) room =
      let sizes = length-le_bytes (packed_size k w) (packed_value k w) in
      let whole = length-append (packed k w) (packed_ints args) in
      let later =
        read_ints-wide args (p + packed_size k w) (i + 1) rest (vs ++ (w ∷ [])) nib.1 h.1 wide
          (omega (arith, sizes, whole)) in
      elim (IsNarrow-or_IsWide k w) [
        | inl narrow ↦
            rw
              (
                append_assoc (packed k w) (packed_ints args) rest,
                read_int-scalar nibs end_ptr k w p i (packed_ints args ++ rest) vs nib.0 h.0 narrow
                    (omega (arith, sizes, whole)),
              )
              later
        | inr here ↦
            rw (read_int-wide k w p i ((packed k w ++ packed_ints args) ++ rest) vs here nib.0)
      ]
  read_ints-wide (text s ∷ args) p i rest vs nib h wide room =
      read_ints_text nibs end_ptr (types args) (ints (packed_ints args ++ rest) p i vs)
      ∙ read_ints-wide args p i rest vs nib h.1 wide room

-- Argument data of a log site with an eight-byte 64-bit integer among the arguments are compressed without an
-- error, and the decompressor rejects the result, whatever the room for its output.
pub decompress-compress_wide :
    (site : LogSite) (dict : DictEntry) (args : List Arg) (size : ℕ) (after rest : List ℕ)
    → Registry.used_types site ≡ types args
    → used_types dict ≡ types args
    → All IsArg args
    → HasWide args
    → (c : List ℕ) × (compress_entry_args (encode_args args ++ after) site ≡ some c)
      × (decompress_entry_args (c ++ rest) (length c) size dict ≡ rejected)
unfolding decompress_entry_args compressed count_non_string_args
decompress-compress_wide site dict args size after rest fs fd h wide =
    let nb = nibble_bytes (length (nibbles_of args)) in
    let payload = packed_ints args ++ strings args in
    let len = length (nibble_array args ++ payload) in
    let whole = length-append (nibble_array args) payload in
    let parts = length-append (packed_ints args) (strings args) in
    let nl : length (nibble_array args) ≡ nb = length-nibble_array args in
    let enough : ltb len nb ≡ false = ground (arith, whole, nl) in
    let r =
      read_ints-wide (nibble_array args) len args (0 + nb) 0 (strings args ++ rest) []
        (nibble_array-Holds args) h wide (omega (arith, whole, parts, nl)) in
    (
      nibble_array args ++ payload,
      compress_entry_args_lem site args after fs h,
      rw (
        fd,
        count_types_lem args,
        enough,
        append_assoc (nibble_array args) payload rest,
        read-append nb (nibble_array args) (payload ++ rest) 0 nl,
        append_assoc (packed_ints args) (strings args) rest,
        r,
      ),
    )
