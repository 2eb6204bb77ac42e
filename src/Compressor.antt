-- ===== src/Compressor.antt =====
-- src/compressor.c: the two passes of `compress_entry_args`.
-- A read past the end of the argument data is `none`.
pub mod Spec
pub mod Bound
use cnano_log.Base.{
  ℕ, ◌+◌, ◌≡◌, List, [], ◌∷◌, ◌++◌, Option, some, none, Bool, true, false, if◌then◌else◌, ◌>>=◌,
  replicate, length, split_at, bit_or,
}
use cnano_log.Base.Bytes.{le_bytes, le_value}
use cnano_log.Format.{
  ArgType, arg_none, int32, int64, uint32, uint64, double, string, pointer, char, other,
}
use cnano_log.Packer.{pack_uint64, pack_uint32, pack_int64, pack_int32, set_nibble, nibble_bytes}
use cnano_log.Registry.{LogSite, used_types}

unfoldable pub count_types : List ArgType → ℕ
count_types [] = 0
count_types (string ∷ ts) = count_types ts
count_types (t ∷ ts) = count_types ts + 1

unfoldable pub count_non_string_args : LogSite → ℕ
unfolding count_types
count_non_string_args site = count_types (used_types site)

unfoldable pub compress_max_size : LogSite → ℕ → ℕ
compress_max_size site uncompressed_len =
    nibble_bytes (count_non_string_args site) + uncompressed_len

-- `write_ptr` holds what stands behind the nibbles.
pub record Pass1 : Type 0 where
  pub read_ptr : List ℕ
  pub write_ptr : List ℕ
  pub nibbles : List ℕ
  pub nibble_idx : ℕ

-- Store a nibble at `nibble_idx++`.
abbrev pub put_nibble : Pass1 → List ℕ → List ℕ → ℕ → Pass1
put_nibble s read_ptr write_ptr nibble = record {
  read_ptr = read_ptr;
  write_ptr = write_ptr;
  nibbles = set_nibble s.nibbles s.nibble_idx nibble;
  nibble_idx = s.nibble_idx + 1;
}

-- `num_bytes | (is_negative ? 0x08 : 0x00)`
unfoldable pub sign_nibble : ℕ → Bool → ℕ
sign_nibble num_bytes is_negative = bit_or num_bytes (if is_negative then 0x08 else 0x00)

abbrev pub put_signed : Pass1 → List ℕ → List ℕ × ℕ × Bool → Pass1
put_signed s rest r = put_nibble s rest (r.0) (sign_nibble (r.1) (r.2))

abbrev pub put_unsigned : Pass1 → List ℕ → List ℕ × ℕ → Pass1
put_unsigned s rest r = put_nibble s rest (r.0) (r.1)

-- One round of the loop of pass 1.
unfoldable pub compress_int : ArgType → Pass1 → Option Pass1
compress_int char s =
    split_at 1 s.read_ptr >>= λ r. some (put_nibble s (r.1) (s.write_ptr ++ (r.0)) 1)
compress_int int32 s = split_at 4 s.read_ptr >>= λ r.
    some (put_signed s (r.1) (pack_int32 s.write_ptr (le_value (r.0))))
compress_int int64 s = split_at 8 s.read_ptr >>= λ r.
    some (put_signed s (r.1) (pack_int64 s.write_ptr (le_value (r.0))))
compress_int uint32 s = split_at 4 s.read_ptr >>= λ r.
    some (put_unsigned s (r.1) (pack_uint32 s.write_ptr (le_value (r.0))))
compress_int uint64 s = split_at 8 s.read_ptr >>= λ r.
    some (put_unsigned s (r.1) (pack_uint64 s.write_ptr (le_value (r.0))))
compress_int double s =
    split_at 8 s.read_ptr >>= λ r. some (put_nibble s (r.1) (s.write_ptr ++ (r.0)) 8)
compress_int pointer s = split_at 8 s.read_ptr >>= λ r.
    some (put_unsigned s (r.1) (pack_uint64 s.write_ptr (le_value (r.0))))
compress_int string s = split_at 4 s.read_ptr >>= λ r.
    split_at (le_value (r.0)) (r.1) >>= λ q. some (record s { read_ptr = q.1 })
compress_int arg_none s = some s
compress_int (other n) s = some s

unfoldable pub compress_pass1 : List ArgType → Pass1 → Option Pass1
compress_pass1 [] s = some s
compress_pass1 (t ∷ ts) s = compress_int t s >>= compress_pass1 ts

-- Skip a value of a fixed width.
abbrev pub skip : ℕ → List ℕ × List ℕ → Option (List ℕ × List ℕ)
skip n s = split_at n (s.0) >>= λ r. some (r.1, s.1)

-- One round of the loop of pass 2, on the read pointer and the written bytes.
unfoldable pub copy_string : ArgType → List ℕ × List ℕ → Option (List ℕ × List ℕ)
copy_string string s = split_at 4 (s.0) >>= λ r. split_at (le_value (r.0)) (r.1) >>= λ q.
    some (q.1, s.1 ++ (le_bytes 4 (le_value (r.0)) ++ (q.0)))
copy_string char s = skip 1 s
copy_string int32 s = skip 4 s
copy_string int64 s = skip 8 s
copy_string uint32 s = skip 4 s
copy_string uint64 s = skip 8 s
copy_string double s = skip 8 s
copy_string pointer s = skip 8 s
copy_string arg_none s = some s
copy_string (other n) s = some s

unfoldable pub compress_pass2 : List ArgType → List ℕ × List ℕ → Option (List ℕ × List ℕ)
compress_pass2 [] s = some s
compress_pass2 (t ∷ ts) s = copy_string t s >>= compress_pass2 ts

-- The compressed bytes; `*compressed_len` is their number. The NULL checks of the pointers are
-- left out: the arguments here exist.
unfoldable pub compress_entry_args : List ℕ → LogSite → Option (List ℕ)
compress_entry_args uncompressed site =
    let zeros = replicate (nibble_bytes (count_non_string_args site)) 0 in
    compress_pass1 (used_types site)
      (record { read_ptr = uncompressed; write_ptr = []; nibbles = zeros; nibble_idx = 0 })
    >>= λ s. compress_pass2 (used_types site) (uncompressed, s.write_ptr) >>= λ r.
        some (s.nibbles ++ (r.1))
