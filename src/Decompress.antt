-- ===== src/Decompress.antt =====
-- tools/decompressor.c: `decompress_entry_args`. The compressed data stand at the front of the
-- memory `compressed`, which may go on behind them; positions count from its start.
pub mod ReadInts
pub mod WriteArgs
pub mod RoundTrip
pub mod Wide
use cnano_log.Base.{
  ℕ, zero, suc, ◌+◌, ◌%◌, ◌^◌, List, [], ◌∷◌, ◌++◌, Option, some, none, Bool, true, false, ◌||◌,
  if◌then◌else◌, ltb, leb, ◌==◌, length, split_at, bit_and, take, not,
}
use cnano_log.Base.Bytes.{le_bytes, le_value}
use cnano_log.Outcome.{Outcome, done, rejected, fault, ◌>>=◌}
use cnano_log.Format.{
  ArgType, arg_none, int32, int64, uint32, uint64, double, string, pointer, char, other,
}
use cnano_log.Packer.{
  get_nibble, nibble_bytes, unpack_uint64, unpack_uint32, unpack_int64, unpack_int32,
}
use cnano_log.Compressor.{count_types}

-- `dict_entry_t`
pub record DictEntry : Type 0 where
  pub log_id : ℕ
  pub log_level : ℕ
  pub num_args : ℕ
  pub line_number : ℕ
  pub filename : List ℕ
  pub format : List ℕ
  pub arg_types : List ArgType

abbrev pub used_types : DictEntry → List ArgType
used_types dict = take dict.num_args dict.arg_types

-- The tool's own `count_non_string_args`, the same loop over `dict`.
unfoldable pub count_non_string_args : DictEntry → ℕ
unfolding count_types
count_non_string_args dict = count_types (used_types dict)

-- `read_ptr` is the memory from the read pointer on, and `read_pos` its offset.
pub record Cursor : Type 0 where
  pub read_ptr : List ℕ
  pub read_pos : ℕ

pub record Ints : Type 0 where
  pub cursor : Cursor
  pub open cursor use *
  pub nibble_idx : ℕ
  pub int_values : List ℕ

-- An access of `n` bytes that nothing guards.
unfoldable pub read : ℕ → Cursor → Outcome (List ℕ × Cursor)
read n c = elim (split_at n c.read_ptr) [
  | none ↦ fault
  | some r ↦ done (r.0, record { read_ptr = r.1; read_pos = c.read_pos + n })
]

-- What an unpacking function returns, as it moves the read pointer by `n`.
abbrev pub unpacked : ℕ → Ints → Option (ℕ × List ℕ) → Outcome Ints
unpacked n s none = fault
unpacked n s (some r) = done (record {
  cursor = record { read_ptr = r.1; read_pos = s.read_pos + n };
  nibble_idx = s.nibble_idx + 1;
  int_values = s.int_values ++ ((r.0) ∷ []);
})

abbrev pub low3 : ℕ → ℕ
low3 nibble = bit_and nibble 0x07

abbrev pub sign_bit : ℕ → Bool
sign_bit nibble = not (bit_and nibble 0x08 == 0)

module _ (nibbles : List ℕ) (end_ptr : ℕ) where
  -- The integer cases: the end test, the nibble, its size test, and the unpacking.
  unfoldable pub read_signed : ℕ → (List ℕ → ℕ → Bool → Option (ℕ × List ℕ)) → Ints → Outcome Ints
  read_signed max_bytes unpack s =
      let nibble = get_nibble nibbles s.nibble_idx in
      if leb end_ptr s.read_pos
      then rejected
      else if low3 nibble == 0 || ltb max_bytes (low3 nibble)
      then rejected
      else unpacked (low3 nibble) s (unpack s.read_ptr (low3 nibble) (sign_bit nibble))

  unfoldable pub read_unsigned : ℕ → (List ℕ → ℕ → Option (ℕ × List ℕ)) → Ints → Outcome Ints
  read_unsigned max_bytes unpack s =
      let num_bytes = bit_and (get_nibble nibbles s.nibble_idx) 0x0f in
      if leb end_ptr s.read_pos
      then rejected
      else if num_bytes == 0 || ltb max_bytes num_bytes
      then rejected
      else unpacked num_bytes s (unpack s.read_ptr num_bytes)

  -- One round of the loop of pass 1.
  unfoldable pub read_int : ArgType → Ints → Outcome Ints
  unfolding read_signed read_unsigned read
  read_int char s =
      if leb end_ptr s.read_pos
      then rejected
      else if not (get_nibble nibbles s.nibble_idx == 1)
      then rejected
      else (read 1 s.cursor >>= λ r. done (record {
        cursor = r.1;
        nibble_idx = s.nibble_idx + 1;
        int_values = s.int_values ++ (le_value (r.0) ∷ []);
      }))
  read_int int32 s = read_signed 4 unpack_int32 s
  read_int int64 s = read_signed 8 unpack_int64 s
  read_int uint32 s = read_unsigned 4 unpack_uint32 s
  read_int uint64 s = read_unsigned 8 unpack_uint64 s
  read_int pointer s = read_unsigned 8 unpack_uint64 s
  read_int double s =
      if ltb end_ptr (s.read_pos + 8)
      then rejected
      else (read 8 s.cursor >>= λ r. done (record {
        cursor = r.1;
        nibble_idx = s.nibble_idx + 1;
        int_values = s.int_values ++ (le_value (r.0) ∷ []);
      }))
  read_int string s = done s
  read_int arg_none s = rejected
  read_int (other n) s = rejected

  unfoldable pub read_ints : List ArgType → Ints → Outcome Ints
  read_ints [] s = done s
  read_ints (t ∷ ts) s = read_int t s >>= read_ints ts

-- `int_values` holds what `int_arg_idx` has not passed, `write_ptr` what is written.
pub record Pass2 : Type 0 where
  pub cursor : Cursor
  pub open cursor use *
  pub int_values : List ℕ
  pub write_ptr : List ℕ

module _ (uncompressed_size : ℕ) where
  -- The room test and the store of `int_values[int_arg_idx++]`, cut to `n` bytes.
  unfoldable pub write_int : ℕ → Pass2 → Outcome Pass2
  write_int n s =
      if ltb uncompressed_size (length s.write_ptr + n) then rejected else (elim s.int_values [
        | [] ↦ fault
        | v ∷ vs ↦ done (record s { int_values = vs; write_ptr = s.write_ptr ++ le_bytes n v })
      ])

  -- The string's bytes, behind its length.
  unfoldable pub write_text : ℕ → ℕ → Pass2 → Outcome Pass2
  unfolding read
  write_text end_ptr str_len s =
      if str_len == 0
      then done s
      else if ltb end_ptr (s.read_pos + str_len)
      then rejected
      else if ltb uncompressed_size (length s.write_ptr + str_len)
      then rejected
      else (read str_len s.cursor >>= λ r.
          done (record s { cursor = r.1; write_ptr = s.write_ptr ++ (r.0) }))

  -- One round of the loop of pass 2.
  unfoldable pub write_arg : ℕ → ArgType → Pass2 → Outcome Pass2
  unfolding write_int write_text read
  write_arg end_ptr char s = write_int 1 s
  write_arg end_ptr int32 s = write_int 4 s
  write_arg end_ptr int64 s = write_int 8 s
  write_arg end_ptr uint32 s = write_int 4 s
  write_arg end_ptr uint64 s = write_int 8 s
  write_arg end_ptr double s = write_int 8 s
  write_arg end_ptr pointer s = write_int 8 s
  write_arg end_ptr string s =
      if ltb end_ptr (s.read_pos + 4)
      then rejected
      else (read 4 s.cursor >>= λ r.
          if ltb uncompressed_size (length s.write_ptr + 4)
          then rejected
          else write_text end_ptr (le_value (r.0))
              (record s { cursor = r.1; write_ptr = s.write_ptr ++ le_bytes 4 (le_value (r.0)) }))
  write_arg end_ptr arg_none s = rejected
  write_arg end_ptr (other n) s = rejected

  unfoldable pub write_args : ℕ → List ArgType → Pass2 → Outcome Pass2
  write_args end_ptr [] s = done s
  write_args end_ptr (t ∷ ts) s = write_arg end_ptr t s >>= write_args end_ptr ts

-- The uncompressed bytes, whose number is the source's return value; `rejected` is its -1.
unfoldable pub decompress_entry_args : List ℕ → ℕ → ℕ → DictEntry → Outcome (List ℕ)
unfolding read
decompress_entry_args compressed compressed_len uncompressed_size dict =
    let nibble_size = nibble_bytes (count_non_string_args dict) in
    let start : Cursor = record { read_ptr = compressed; read_pos = 0 } in
    if ltb compressed_len nibble_size
    then rejected
    else (read nibble_size start >>= λ r.
        read_ints (r.0) compressed_len (used_types dict)
          (record { cursor = r.1; nibble_idx = 0; int_values = [] })
        >>= λ s.
            write_args uncompressed_size compressed_len (used_types dict)
              (record { cursor = s.cursor; int_values = s.int_values; write_ptr = [] })
            >>= λ w. if w.read_pos == compressed_len then done w.write_ptr else rejected)
