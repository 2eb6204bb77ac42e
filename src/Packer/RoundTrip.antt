-- ===== src/Packer/RoundTrip.antt =====
-- src/packer.c: what is packed is unpacked, and in the fewest bytes.
use cnano_log.Base.{
  dec_lt, ℕ, ◌-◌, ◌%◌, ◌^◌, ◌≤◌, ◌<◌, ◌≡◌, List, [], ◌++◌, length, take, drop, take-append,
  drop-append, some, false, ◌||◌, ltb, ◌==◌, if◌then◌else◌, Bool-cases, inl, inr, arith, ◌⊎◌,
}
use cnano_log.Base.Bytes.{le_bytes, le_value-le_bytes, split_at-le_bytes}
use cnano_log.Packer.{
  num_bytes_of, pack_uint64, pack_int64, negate64, is_negative64, sign_extend, unpack_uint64,
  unpack_int64, unpack_int32, unpack_uint32,
}

pub num_bytes_of_bounds : (v : ℕ) → (1 ≤ num_bytes_of v) × (num_bytes_of v ≤ 8)
unfolding num_bytes_of
num_bytes_of_bounds v = ground arith

pub lt-pow-num_bytes_of : (v : ℕ) → v < 2 ^ 64 → v < 256 ^ num_bytes_of v
unfolding num_bytes_of
lt-pow-num_bytes_of v h = ground arith

-- One byte fewer does not hold the value.
pub num_bytes_of_least : (v : ℕ) → 1 < num_bytes_of v → 256 ^ (num_bytes_of v - 1) ≤ v
unfolding num_bytes_of
num_bytes_of_least v h = ground arith

pub unpack_uint64-append :
    (n v : ℕ) (rest : List ℕ)
    → 1 ≤ n
    → n ≤ 8
    → v < 256 ^ n
    → unpack_uint64 (le_bytes n v ++ rest) n ≡ some (v, rest)
unfolding unpack_uint64
unpack_uint64-append n v rest lo hi fits =
    let size : ((n == 0) || ltb 8 n) ≡ false = ground arith in
    rw (size, split_at-le_bytes n v rest, le_value-le_bytes n v fits)

-- A `uint64_t` is packed behind what the buffer held before, which stays. It is unpacked from right
-- behind that, by the byte count that packing returned, and what follows is left. The count is from
-- 1 to 8, holds the value, and no smaller one does.
pub unpack_uint64-pack_uint64 :
    (buffer : List ℕ) (v : ℕ) (rest : List ℕ)
    → v < 2 ^ 64
    → (take (length buffer) ((pack_uint64 buffer v).0) ≡ buffer)
      × (unpack_uint64
            (drop (length buffer) ((pack_uint64 buffer v).0) ++ rest)
            ((pack_uint64 buffer v).1)
          ≡ some (v, rest))
      × (1 ≤ (pack_uint64 buffer v).1)
      × ((pack_uint64 buffer v).1 ≤ 8)
      × (v < 256 ^ (pack_uint64 buffer v).1)
      × (((pack_uint64 buffer v).1 ≡ 1) ⊎ (256 ^ ((pack_uint64 buffer v).1 - 1) ≤ v))
unfolding pack_uint64
unpack_uint64-pack_uint64 buffer v rest h =
    let (lo, hi) = num_bytes_of_bounds v in
    let fits = lt-pow-num_bytes_of v h in
    let packed = le_bytes (num_bytes_of v) v in
    let least : (num_bytes_of v ≡ 1) ⊎ (256 ^ (num_bytes_of v - 1) ≤ v) =
      elim (dec_lt 1 (num_bytes_of v)) [
        | yes many ↦ inr (num_bytes_of_least v many)
        | no few ↦ inl (omega arith)
      ] in
    (
      take-append buffer packed,
      rw (drop-append buffer packed) (unpack_uint64-append (num_bytes_of v) v rest lo hi fits),
      lo,
      hi,
      fits,
      least,
    )

-- The magnitude that `pack_int64` writes.
unfoldable pub magnitude : ℕ → ℕ
magnitude v = if is_negative64 v then negate64 v else v

pub magnitude_bound : (v : ℕ) → v < 2 ^ 64 → magnitude v ≤ 2 ^ 63
unfolding magnitude negate64
magnitude_bound v h = ground arith

pub restore-magnitude :
    (v : ℕ) → v < 2 ^ 64 → (if is_negative64 v then negate64 (magnitude v) else magnitude v) ≡ v
unfolding magnitude negate64
restore-magnitude v h = ground arith

pub pack_int64_lem :
    (b : List ℕ) (v : ℕ)
    → pack_int64 b v ≡ (
      b ++ le_bytes (num_bytes_of (magnitude v)) (magnitude v),
      num_bytes_of (magnitude v),
      is_negative64 v,
    )
unfolding pack_int64 pack_uint64 magnitude
pack_int64_lem b v = elim (Bool-cases (is_negative64 v)) [ inl e ↦ rw e | inr e ↦ rw e ]

pub unpack_int64-append :
    (v : ℕ) (rest : List ℕ)
    → v < 2 ^ 64
    → unpack_int64
        (le_bytes (num_bytes_of (magnitude v)) (magnitude v) ++ rest)
        (num_bytes_of (magnitude v))
        (is_negative64 v)
      ≡ some (v, rest)
unfolding unpack_int64
unpack_int64-append v rest h =
    let (lo, hi) = num_bytes_of_bounds (magnitude v) in
    let small : magnitude v < 2 ^ 64 = omega (arith, magnitude_bound v h) in
    rw (unpack_uint64-append _ _ rest lo hi (lt-pow-num_bytes_of _ small), restore-magnitude v h)

-- An `int64_t` is unpacked from its magnitude and the sign flag, INT64_MIN included.
pub unpack_int64-pack_int64 :
    (v : ℕ) (rest : List ℕ)
    → v < 2 ^ 64
    → unpack_int64 ((pack_int64 [] v).0 ++ rest) ((pack_int64 [] v).1) ((pack_int64 [] v).2)
      ≡ some (v, rest)
unpack_int64-pack_int64 v rest h = rw (pack_int64_lem [] v) (unpack_int64-append v rest h)

pub sign_extend_lem : (v : ℕ) → v < 2 ^ 32 → (sign_extend v < 2 ^ 64) × (sign_extend v % 2 ^ 32 ≡ v)
unfolding sign_extend
sign_extend_lem v h = ground arith

-- An `int32_t` takes at most four bytes.
pub num_bytes_int32 : (v : ℕ) → v < 2 ^ 32 → num_bytes_of (magnitude (sign_extend v)) ≤ 4
unfolding num_bytes_of magnitude sign_extend negate64
num_bytes_int32 v h = ground arith

pub num_bytes_uint32 : (v : ℕ) → v < 2 ^ 32 → num_bytes_of v ≤ 4
unfolding num_bytes_of
num_bytes_uint32 v h = ground arith

pub unpack_int32-append :
    (v : ℕ) (rest : List ℕ)
    → v < 2 ^ 32
    → (let w = magnitude (sign_extend v) in
        unpack_int32
          (le_bytes (num_bytes_of w) w ++ rest)
          (num_bytes_of w)
          (is_negative64 (sign_extend v)))
      ≡ some (v, rest)
unfolding unpack_int32
unpack_int32-append v rest h =
    let (wide, low) = sign_extend_lem v h in rw (unpack_int64-append (sign_extend v) rest wide, low)

pub unpack_uint32-append :
    (v : ℕ) (rest : List ℕ)
    → v < 2 ^ 32
    → unpack_uint32 (le_bytes (num_bytes_of v) v ++ rest) (num_bytes_of v) ≡ some (v, rest)
unfolding unpack_uint32
unpack_uint32-append v rest h =
    let (lo, hi) = num_bytes_of_bounds v in
    let fits = lt-pow-num_bytes_of v (omega arith) in
    let low : v % 2 ^ 32 ≡ v = omega arith in
    rw (unpack_uint64-append (num_bytes_of v) v rest lo hi fits, low)
