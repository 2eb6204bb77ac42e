-- ===== src/Decompress/ReadInts.antt =====
-- tools/decompressor.c: pass 1 of `decompress_entry_args` reads back what pass 1 of the compressor wrote.
use cnano_log.Base.{
  ℕ, ◌+◌, ◌^◌, ◌<◌, ◌≤◌, ◌≡◌, refl, ◌∙◌, List, [], ◌∷◌, ◌++◌, Option, some, Bool, true, false, ◌||◌,
  ◌&&◌, ltb, ◌==◌, lt→leb_false, length, length-append, split_at-append, All, append_assoc,
  append-nil, arith, bit_and, not,
}
use cnano_log.Base.Bytes.{le_bytes, le_value-le_bytes, length-le_bytes}
use cnano_log.Outcome.{done}
use cnano_log.Format.{ArgType}
use cnano_log.Args.{Kind, int32, int64, uint32, uint64, double, pointer, char, kind_type, width}
use cnano_log.Args.{Arg, scalar, text, IsArg, types}
use cnano_log.Packer.{
  num_bytes_of, is_negative64, sign_extend, get_nibble, unpack_int32, unpack_int64, unpack_uint32,
  unpack_uint64,
}
use cnano_log.Packer.RoundTrip.{
  magnitude, num_bytes_of_bounds, num_bytes_int32, num_bytes_uint32, lt-pow-num_bytes_of,
  unpack_uint64-append, unpack_int64-append, unpack_int32-append, unpack_uint32-append,
}
use cnano_log.Packer.Nibbles.{Holds, holds_below, holds_at, low_mask}
use cnano_log.Compressor.{sign_nibble}
use cnano_log.Compressor.Spec.{
  packed, packed_size, packed_value, packed_ints, nibble_of, nibbles_of,
}
use cnano_log.Decompress.{
  Cursor, Ints, read, read_signed, read_unsigned, read_int, read_ints, low3, sign_bit,
}

-- The values that the four-bit nibbles can carry: a 64-bit integer in fewer than eight bytes.
abbrev pub IsNarrow : Arg → Type 0
IsNarrow (scalar int64 w) = magnitude w < 2 ^ 56
IsNarrow _ = Unit

abbrev pub values : List Arg → List ℕ
values [] = []
values (scalar k w ∷ args) = w ∷ values args
values (text s ∷ args) = values args

pub num_bytes_narrow : (v : ℕ) → v < 2 ^ 56 → num_bytes_of v < 8
unfolding num_bytes_of
num_bytes_narrow v h = ground arith

-- A count below eight and a sign share a nibble.
nibble_test : ℕ → Bool
nibble_test n =
    (low3 (sign_nibble n true) == n)
    && (low3 (sign_nibble n false) == n)
    && sign_bit (sign_nibble n true)
    && not (sign_bit (sign_nibble n false))

nibble_table : (n : ℕ) → n < 8 → nibble_test n ≡ true
unfolding holds_below nibble_test sign_nibble
nibble_table n h = holds_at nibble_test 8 refl h

sign_nibble_lem :
    (n : ℕ) (neg : Bool)
    → n < 8
    → (low3 (sign_nibble n neg) ≡ n) × (sign_bit (sign_nibble n neg) ≡ neg)
unfolding nibble_test
sign_nibble_lem n true h = ground (arith, nibble_table n h)
sign_nibble_lem n false h = ground (arith, nibble_table n h)

abbrev pub cursor : List ℕ → ℕ → Cursor
cursor r p = record { read_ptr = r; read_pos = p }

abbrev pub ints : List ℕ → ℕ → ℕ → List ℕ → Ints
ints r p i vs = record { cursor = cursor r p; nibble_idx = i; int_values = vs }

pub read-append :
    (n : ℕ) (xs ys : List ℕ) (p : ℕ)
    → length xs ≡ n
    → read n (cursor (xs ++ ys) p) ≡ done (xs, cursor ys (p + n))
unfolding read
read-append n xs ys p h = rw (split_at-append n xs ys h, read)

module _ (nibs : List ℕ) (end_ptr : ℕ) where
  read_signed-lem :
      (m n w p i : ℕ) (neg : Bool) (mem rest vs : List ℕ)
      (unpack : List ℕ → ℕ → Bool → Option (ℕ × List ℕ))
      → get_nibble nibs i ≡ sign_nibble n neg
      → 1 ≤ n
      → n ≤ m
      → n < 8
      → p + n ≤ end_ptr
      → unpack mem n neg ≡ some (w, rest)
      → read_signed nibs end_ptr m unpack (ints mem p i vs)
        ≡ done (ints rest (p + n) (i + 1) (vs ++ (w ∷ [])))
  unfolding read_signed
  read_signed-lem m n w p i neg mem rest vs unpack nib lo hi small room e =
      let (l, s) = sign_nibble_lem n neg small in
      let size : ((n == 0) || ltb m n) ≡ false = ground arith in
      rw (nib, l, s, lt→leb_false end_ptr p (omega arith), size, e)

  read_unsigned-lem :
      (m n w p i : ℕ) (mem rest vs : List ℕ) (unpack : List ℕ → ℕ → Option (ℕ × List ℕ))
      → get_nibble nibs i ≡ n
      → 1 ≤ n
      → n ≤ m
      → n ≤ 8
      → p + n ≤ end_ptr
      → unpack mem n ≡ some (w, rest)
      → read_unsigned nibs end_ptr m unpack (ints mem p i vs)
        ≡ done (ints rest (p + n) (i + 1) (vs ++ (w ∷ [])))
  unfolding read_unsigned
  read_unsigned-lem m n w p i mem rest vs unpack nib lo hi small room e =
      let l : bit_and n 0x0f ≡ n = low_mask n (omega arith) ∙ omega arith in
      let size : ((n == 0) || ltb m n) ≡ false = ground arith in
      rw (nib, l, lt→leb_false end_ptr p (omega arith), size, e)

  read_wide :
      (w p i : ℕ) (rest vs : List ℕ)
      → get_nibble nibs i ≡ num_bytes_of w
      → w < 2 ^ 64
      → p + num_bytes_of w ≤ end_ptr
      → read_unsigned nibs end_ptr 8 unpack_uint64
          (ints (le_bytes (num_bytes_of w) w ++ rest) p i vs)
        ≡ done (ints rest (p + num_bytes_of w) (i + 1) (vs ++ (w ∷ [])))
  read_wide w p i rest vs nib h room =
      let (lo, hi) = num_bytes_of_bounds w in
      read_unsigned-lem 8 (num_bytes_of w) w p i _ rest vs unpack_uint64 nib lo hi hi room
        (unpack_uint64-append (num_bytes_of w) w rest lo hi (lt-pow-num_bytes_of w h))

  -- One value is read back.
  pub read_int-scalar :
      (k : Kind) (w p i : ℕ) (rest vs : List ℕ)
      → get_nibble nibs i ≡ nibble_of k w
      → w < 256 ^ width k
      → IsNarrow (scalar k w)
      → p + packed_size k w ≤ end_ptr
      → read_int nibs end_ptr (kind_type k) (ints (packed k w ++ rest) p i vs)
        ≡ done (ints rest (p + packed_size k w) (i + 1) (vs ++ (w ∷ [])))
  unfolding read_int kind_type width nibble_of packed_size packed_value
  read_int-scalar int32 w p i rest vs nib h narrow room =
      let m = magnitude (sign_extend w) in
      read_signed-lem 4 (num_bytes_of m) w p i (is_negative64 (sign_extend w)) _ rest vs
        unpack_int32 nib ((num_bytes_of_bounds m).0) (num_bytes_int32 w h)
        (omega (arith, num_bytes_int32 w h)) room (unpack_int32-append w rest h)
  read_int-scalar int64 w p i rest vs nib h narrow room =
      let m = magnitude w in
      read_signed-lem 8 (num_bytes_of m) w p i (is_negative64 w) _ rest vs unpack_int64 nib
        ((num_bytes_of_bounds m).0) ((num_bytes_of_bounds m).1) (num_bytes_narrow m narrow) room
        (unpack_int64-append w rest h)
  read_int-scalar uint32 w p i rest vs nib h narrow room =
      read_unsigned-lem 4 (num_bytes_of w) w p i _ rest vs unpack_uint32 nib
        ((num_bytes_of_bounds w).0) (num_bytes_uint32 w h) ((num_bytes_of_bounds w).1) room
        (unpack_uint32-append w rest h)
  read_int-scalar uint64 w p i rest vs nib h narrow room = read_wide w p i rest vs nib h room
  read_int-scalar pointer w p i rest vs nib h narrow room = read_wide w p i rest vs nib h room
  read_int-scalar double w p i rest vs nib h narrow room =
      let enough : ltb end_ptr (p + 8) ≡ false = ground arith in
      rw
        (enough, read-append 8 (le_bytes 8 w) rest p (length-le_bytes 8 w), le_value-le_bytes 8 w h)
  read_int-scalar char w p i rest vs nib h narrow room = rw (
    lt→leb_false end_ptr p (omega arith),
    nib,
    read-append 1 (le_bytes 1 w) rest p (length-le_bytes 1 w),
    le_value-le_bytes 1 w h,
  )

  -- Pass 1 passes over strings.
  pub read_ints_text :
      (ts : List ArgType) (s : Ints)
      → read_ints nibs end_ptr (ArgType.string ∷ ts) s ≡ read_ints nibs end_ptr ts s
  unfolding read_ints read_int
  read_ints_text ts s = refl

  -- Pass 1 reads the integers back, in order, and leaves the strings.
  pub read_ints_lem :
      (args : List Arg) (p q i : ℕ) (rest vs : List ℕ)
      → Holds nibs i (nibbles_of args)
      → All IsArg args
      → All IsNarrow args
      → p + length (packed_ints args) ≡ q
      → q ≤ end_ptr
      → (j : ℕ) × (read_ints nibs end_ptr (types args) (ints (packed_ints args ++ rest) p i vs)
          ≡ done (ints rest q j (vs ++ values args)))
  unfolding read_ints
  read_ints_lem [] p q i rest vs nib h narrow e room =
      let e' : p ≡ q = omega arith in (i, rw (e', append-nil vs))
  read_ints_lem (scalar k w ∷ args) p q i rest vs nib h narrow e room =
      let sizes = length-le_bytes (packed_size k w) (packed_value k w) in
      let whole = length-append (packed k w) (packed_ints args) in
      let (j, r) =
        read_ints_lem args (p + packed_size k w) q (i + 1) rest (vs ++ (w ∷ [])) nib.1 h.1 narrow.1
          (omega (arith, sizes, whole)) room in
      (
        j,
        rw
            (
              append_assoc (packed k w) (packed_ints args) rest,
              read_int-scalar k w p i (packed_ints args ++ rest) vs nib.0 h.0 narrow.0
                  (omega (arith, sizes, whole)),
            )
            (r ∙ rw (append_assoc vs (w ∷ []) (values args))),
      )
  read_ints_lem (text s ∷ args) p q i rest vs nib h narrow e room =
      let (j, r) = read_ints_lem args p q i rest vs nib h.1 narrow.1 e room in
      (j, read_ints_text (types args) (ints (packed_ints args ++ rest) p i vs) ∙ r)
