-- ===== src/Packer.antt =====
-- src/packer.c and src/packer.h: variable-byte integers and 4-bit nibbles.
-- An output buffer is the list of the bytes before the write pointer, a read pointer the list of
-- the bytes from it on. A `uint64_t` is a number below 2^64, an `int64_t` or `int32_t` its two's
-- complement bit pattern.
pub mod RoundTrip
pub mod Nibbles
use cnano_log.Base.{
  ℕ, ◌+◌, ◌-◌, ◌*◌, ◌/◌, ◌%◌, ◌^◌, List, ◌++◌, Option, some, none, Bool, true, false, ◌||◌, ltb,
  ◌==◌, if◌then◌else◌, ◌>>=◌, get_or, set, bit_and, bit_or, split_at,
}
use cnano_log.Base.Bytes.{le_bytes, le_value}

-- The ladder of `pack_uint64`: the fewest bytes that hold the value.
unfoldable pub num_bytes_of : ℕ → ℕ
num_bytes_of val =
    if ltb val (2 ^ 8)
    then 1
    else if ltb val (2 ^ 16)
    then 2
    else if ltb val (2 ^ 24)
    then 3
    else if ltb val (2 ^ 32)
    then 4
    else if ltb val (2 ^ 40)
    then 5
    else if ltb val (2 ^ 48)
    then 6
    else if ltb val (2 ^ 56)
    then 7
    else 8

-- The new buffer and the number of bytes used.
unfoldable pub pack_uint64 : List ℕ → ℕ → List ℕ × ℕ
pack_uint64 buffer val = (buffer ++ le_bytes (num_bytes_of val) val, num_bytes_of val)

-- `(uint64_t)(-val)` of a bit pattern. The source's `-INT64_MIN` overflows; here it wraps.
unfoldable pub negate64 : ℕ → ℕ
negate64 val = (2 ^ 64 - val) % 2 ^ 64

abbrev pub is_negative64 : ℕ → Bool
is_negative64 val = if ltb val (2 ^ 63) then false else true

-- The new buffer, the number of bytes and the flag that goes through `is_negative`.
unfoldable pub pack_int64 : List ℕ → ℕ → List ℕ × ℕ × Bool
pack_int64 buffer val =
    if is_negative64 val
    then (let (b, n) = pack_uint64 buffer (negate64 val) in (b, n, true))
    else (let (b, n) = pack_uint64 buffer val in (b, n, false))

unfoldable pub pack_uint32 : List ℕ → ℕ → List ℕ × ℕ
pack_uint32 buffer val = pack_uint64 buffer val

-- The conversion of an `int32_t` argument to the `int64_t` parameter.
unfoldable pub sign_extend : ℕ → ℕ
sign_extend val = if ltb val (2 ^ 31) then val else val + (2 ^ 64 - 2 ^ 32)

unfoldable pub pack_int32 : List ℕ → ℕ → List ℕ × ℕ × Bool
pack_int32 buffer val = pack_int64 buffer (sign_extend val)

-- `none` is a read past the end of the memory.
unfoldable pub unpack_uint64 : List ℕ → ℕ → Option (ℕ × List ℕ)
unpack_uint64 buffer num_bytes =
    if num_bytes == 0 || ltb 8 num_bytes
    then some (0, buffer)
    else (split_at num_bytes buffer >>= λ r. some (le_value (r.0), r.1))

unfoldable pub unpack_int64 : List ℕ → ℕ → Bool → Option (ℕ × List ℕ)
unpack_int64 buffer num_bytes is_negative = unpack_uint64 buffer num_bytes >>= λ r.
    some ((if is_negative then negate64 (r.0) else r.0), r.1)

unfoldable pub unpack_uint32 : List ℕ → ℕ → Option (ℕ × List ℕ)
unpack_uint32 buffer num_bytes = unpack_uint64 buffer num_bytes >>= λ r. some (r.0 % 2 ^ 32, r.1)

unfoldable pub unpack_int32 : List ℕ → ℕ → Bool → Option (ℕ × List ℕ)
unpack_int32 buffer num_bytes is_negative =
    unpack_int64 buffer num_bytes is_negative >>= λ r. some (r.0 % 2 ^ 32, r.1)

-- `b &= ~(0x0F << shift); b |= (value & 0x0F) << shift` on one byte, for the two shifts.
unfoldable pub set_nibble_byte : ℕ → ℕ → ℕ → ℕ
set_nibble_byte b odd value =
    if odd == 0
    then bit_or (bit_and b 0xf0) (bit_and value 0x0f)
    else bit_or (bit_and b 0x0f) (bit_and value 0x0f * 16)

unfoldable pub set_nibble : List ℕ → ℕ → ℕ → List ℕ
set_nibble nibbles idx value =
    set nibbles (idx / 2) (set_nibble_byte (get_or nibbles (idx / 2) 0) (idx % 2) value)

unfoldable pub get_nibble : List ℕ → ℕ → ℕ
get_nibble nibbles idx =
    bit_and (get_or nibbles (idx / 2) 0 / (if idx % 2 == 0 then 1 else 16)) 0x0f

unfoldable pub nibble_bytes : ℕ → ℕ
nibble_bytes num_nibbles = (num_nibbles + 1) / 2
