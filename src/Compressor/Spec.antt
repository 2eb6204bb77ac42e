-- ===== src/Compressor/Spec.antt =====
-- src/compressor.c: what the two passes write, stated on the arguments.
use cnano_log.Base.{
  ℕ, ◌+◌, ◌^◌, ◌<◌, ◌≡◌, refl, ◌∙◌, List, [], ◌∷◌, ◌++◌, some, length, split_at, split_at-append,
  All, append_assoc, append-nil, arith, replicate,
}
use cnano_log.Base.Bytes.{le_bytes, le_value, le_value-le_bytes, split_at-le_bytes}
use cnano_log.Format.{ArgType}
use cnano_log.Args.{Kind, int32, int64, uint32, uint64, double, pointer, char, kind_type, width}
use cnano_log.Args.{Arg, scalar, text, encode, encode_args, IsArg, types}
use cnano_log.Packer.{
  num_bytes_of, is_negative64, sign_extend, pack_uint64, pack_uint32, pack_int32, set_nibble,
  nibble_bytes,
}
use cnano_log.Packer.RoundTrip.{magnitude, pack_int64_lem}
use cnano_log.Packer.Nibbles.{set_nibbles}
use cnano_log.Registry.{LogSite, used_types}
use cnano_log.Compressor.{
  Pass1, compress_int, compress_pass1, copy_string, compress_pass2, sign_nibble, count_types,
  count_non_string_args, compress_entry_args,
}

-- The number whose bytes are written for a value.
unfoldable pub packed_value : Kind → ℕ → ℕ
packed_value int32 w = magnitude (sign_extend w)
packed_value int64 w = magnitude w
packed_value _ w = w

unfoldable pub packed_size : Kind → ℕ → ℕ
packed_size char w = 1
packed_size double w = 8
packed_size int32 w = num_bytes_of (magnitude (sign_extend w))
packed_size int64 w = num_bytes_of (magnitude w)
packed_size _ w = num_bytes_of w

unfoldable pub nibble_of : Kind → ℕ → ℕ
nibble_of int32 w =
    sign_nibble (num_bytes_of (magnitude (sign_extend w))) (is_negative64 (sign_extend w))
nibble_of int64 w = sign_nibble (num_bytes_of (magnitude w)) (is_negative64 w)
nibble_of char w = 1
nibble_of double w = 8
nibble_of _ w = num_bytes_of w

abbrev pub packed : Kind → ℕ → List ℕ
packed k w = le_bytes (packed_size k w) (packed_value k w)

abbrev pub packed_ints : List Arg → List ℕ
packed_ints [] = []
packed_ints (scalar k w ∷ args) = packed k w ++ packed_ints args
packed_ints (text s ∷ args) = packed_ints args

abbrev pub nibbles_of : List Arg → List ℕ
nibbles_of [] = []
nibbles_of (scalar k w ∷ args) = nibble_of k w ∷ nibbles_of args
nibbles_of (text s ∷ args) = nibbles_of args

abbrev pub strings : List Arg → List ℕ
strings [] = []
strings (scalar k w ∷ args) = strings args
strings (text s ∷ args) = encode (text s) ++ strings args

abbrev state : List ℕ → List ℕ → List ℕ → ℕ → Pass1
state r w n i = record { read_ptr = r; write_ptr = w; nibbles = n; nibble_idx = i }

compress_int-scalar :
    (k : Kind) (w : ℕ) (rest out ns : List ℕ) (i : ℕ)
    → w < 256 ^ width k
    → compress_int (kind_type k) (state (le_bytes (width k) w ++ rest) out ns i)
      ≡ some (state rest (out ++ packed k w) (set_nibble ns i (nibble_of k w)) (i + 1))
unfolding compress_int kind_type width packed_value packed_size nibble_of pack_uint64 pack_uint32
    pack_int32
compress_int-scalar int32 w rest out ns i h =
    rw (split_at-le_bytes 4 w rest, le_value-le_bytes 4 w h, pack_int64_lem out (sign_extend w))
compress_int-scalar int64 w rest out ns i h =
    rw (split_at-le_bytes 8 w rest, le_value-le_bytes 8 w h, pack_int64_lem out w)
compress_int-scalar uint32 w rest out ns i h =
    rw (split_at-le_bytes 4 w rest, le_value-le_bytes 4 w h)
compress_int-scalar uint64 w rest out ns i h =
    rw (split_at-le_bytes 8 w rest, le_value-le_bytes 8 w h)
compress_int-scalar double w rest out ns i h = rw (split_at-le_bytes 8 w rest)
compress_int-scalar pointer w rest out ns i h =
    rw (split_at-le_bytes 8 w rest, le_value-le_bytes 8 w h)
compress_int-scalar char w rest out ns i h = rw (split_at-le_bytes 1 w rest)

-- The text behind its length is split off whole.
split_text :
    (s rest : List ℕ)
    → length s < 2 ^ 32
    → (split_at 4 (encode (text s) ++ rest) ≡ some (le_bytes 4 (length s), s ++ rest))
      × (split_at (le_value (le_bytes 4 (length s))) (s ++ rest) ≡ some (s, rest))
split_text s rest h = (
  rw (append_assoc (le_bytes 4 (length s)) s rest) (split_at-le_bytes 4 (length s) (s ++ rest)),
  rw (le_value-le_bytes 4 (length s) h) (split_at-append (length s) s rest refl),
)

compress_int-text :
    (s rest out ns : List ℕ) (i : ℕ)
    → length s < 2 ^ 32
    → compress_int ArgType.string (state (encode (text s) ++ rest) out ns i)
      ≡ some (state rest out ns i)
unfolding compress_int
compress_int-text s rest out ns i h = let (e, f) = split_text s rest h in rw (e, f)

-- The nibbles and the bytes that pass 1 leaves.
pub compress_pass1_lem :
    (args : List Arg) (rest out ns : List ℕ) (i : ℕ)
    → All IsArg args
    → (j : ℕ) × (compress_pass1 (types args) (state (encode_args args ++ rest) out ns i)
        ≡ some (state rest (out ++ packed_ints args) (set_nibbles ns i (nibbles_of args)) j))
unfolding compress_pass1 set_nibbles
compress_pass1_lem [] rest out ns i h = (i, rw (append-nil out))
compress_pass1_lem (scalar k w ∷ args) rest out ns i (hw, h) =
    let (j, e) =
      compress_pass1_lem args rest (out ++ packed k w) (set_nibble ns i (nibble_of k w)) (i + 1)
        h in
    (
      j,
      rw
          (
            append_assoc (le_bytes (width k) w) (encode_args args) rest,
            compress_int-scalar k w (encode_args args ++ rest) out ns i hw,
          )
          (e ∙ rw (append_assoc out (packed k w) (packed_ints args))),
    )
compress_pass1_lem (text s ∷ args) rest out ns i (hs, h) =
    let (j, e) = compress_pass1_lem args rest out ns i h in
    (
      j,
      rw
          (
            append_assoc (encode (text s)) (encode_args args) rest,
            compress_int-text s (encode_args args ++ rest) out ns i hs,
          )
          e,
    )

skip_scalar :
    (k : Kind) (w : ℕ) (rest out : List ℕ)
    → copy_string (kind_type k) (le_bytes (width k) w ++ rest, out) ≡ some (rest, out)
unfolding copy_string kind_type width
skip_scalar int32 w rest out = rw (split_at-le_bytes 4 w rest)
skip_scalar int64 w rest out = rw (split_at-le_bytes 8 w rest)
skip_scalar uint32 w rest out = rw (split_at-le_bytes 4 w rest)
skip_scalar uint64 w rest out = rw (split_at-le_bytes 8 w rest)
skip_scalar double w rest out = rw (split_at-le_bytes 8 w rest)
skip_scalar pointer w rest out = rw (split_at-le_bytes 8 w rest)
skip_scalar char w rest out = rw (split_at-le_bytes 1 w rest)

copy_text :
    (s rest out : List ℕ)
    → length s < 2 ^ 32
    → copy_string ArgType.string (encode (text s) ++ rest, out)
      ≡ some (rest, out ++ encode (text s))
unfolding copy_string
copy_text s rest out h =
    let (e, f) = split_text s rest h in rw (e, f, le_value-le_bytes 4 (length s) h)

pub compress_pass2_lem :
    (args : List Arg) (rest out : List ℕ)
    → All IsArg args
    → compress_pass2 (types args) (encode_args args ++ rest, out) ≡ some (rest, out ++ strings args)
unfolding compress_pass2
compress_pass2_lem [] rest out h = rw (append-nil out)
compress_pass2_lem (scalar k w ∷ args) rest out (hw, h) =
    rw
      (
        append_assoc (le_bytes (width k) w) (encode_args args) rest,
        skip_scalar k w (encode_args args ++ rest) out,
      )
      (compress_pass2_lem args rest out h)
compress_pass2_lem (text s ∷ args) rest out (hs, h) =
    rw
      (
        append_assoc (encode (text s)) (encode_args args) rest,
        copy_text s (encode_args args ++ rest) out hs,
      )
      (compress_pass2_lem args rest (out ++ encode (text s)) h
        ∙ rw (append_assoc out (encode (text s)) (strings args)))

pub count_types_lem : (args : List Arg) → count_types (types args) ≡ length (nibbles_of args)
unfolding count_types kind_type
count_types_lem [] = refl
count_types_lem (scalar int32 w ∷ args) = omega (arith, count_types_lem args)
count_types_lem (scalar int64 w ∷ args) = omega (arith, count_types_lem args)
count_types_lem (scalar uint32 w ∷ args) = omega (arith, count_types_lem args)
count_types_lem (scalar uint64 w ∷ args) = omega (arith, count_types_lem args)
count_types_lem (scalar double w ∷ args) = omega (arith, count_types_lem args)
count_types_lem (scalar pointer w ∷ args) = omega (arith, count_types_lem args)
count_types_lem (scalar char w ∷ args) = omega (arith, count_types_lem args)
count_types_lem (text s ∷ args) = count_types_lem args

-- The nibble array of a compressed entry, and the whole entry.
unfoldable pub nibble_array : List Arg → List ℕ
nibble_array args =
    set_nibbles (replicate (nibble_bytes (length (nibbles_of args))) 0) 0 (nibbles_of args)

unfoldable pub compressed : List Arg → List ℕ
compressed args = nibble_array args ++ (packed_ints args ++ strings args)

-- On argument data laid out for the site's types, whatever follows it in the buffer, compression
-- succeeds. It writes the nibbles, the packed integers and the strings, in that order.
pub compress_entry_args_lem :
    (site : LogSite) (args : List Arg) (rest : List ℕ)
    → used_types site ≡ types args
    → All IsArg args
    → compress_entry_args (encode_args args ++ rest) site ≡ some (compressed args)
unfolding compress_entry_args compressed nibble_array count_non_string_args
compress_entry_args_lem site args rest fits h =
    let zeros = replicate (nibble_bytes (length (nibbles_of args))) 0 in
    let (j, e) = compress_pass1_lem args rest [] zeros 0 h in
    rw (fits, count_types_lem args, e, compress_pass2_lem args rest (packed_ints args) h)
