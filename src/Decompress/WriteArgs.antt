-- ===== src/Decompress/WriteArgs.antt =====
-- tools/decompressor.c: pass 2 of `decompress_entry_args` writes the arguments in order.
use cnano_log.Base.{
  ℕ, ◌+◌, ◌^◌, ◌<◌, ◌≤◌, ◌≡◌, refl, List, [], ◌∷◌, ◌++◌, false, ltb, ◌==◌, length, length-append,
  All, append_assoc, append-nil, arith,
}
use cnano_log.Base.Bytes.{le_bytes, le_value-le_bytes, length-le_bytes}
use cnano_log.Outcome.{done}
use cnano_log.Format.{ArgType}
use cnano_log.Args.{Kind, int32, int64, uint32, uint64, double, pointer, char, kind_type, width}
use cnano_log.Args.{Arg, scalar, text, encode, encode_args, IsArg, types}
use cnano_log.Compressor.Spec.{strings}
use cnano_log.Decompress.{Pass2, write_int, write_text, write_arg, write_args}
use cnano_log.Decompress.ReadInts.{values, cursor, read-append}

abbrev pub out : List ℕ → ℕ → List ℕ → List ℕ → Pass2
out r p vs w = record { cursor = cursor r p; int_values = vs; write_ptr = w }

module _ (size end_ptr : ℕ) where
  write_int_lem :
      (n w p : ℕ) (r vs o : List ℕ)
      → length o + n ≤ size
      → write_int size n (out r p (w ∷ vs) o) ≡ done (out r p vs (o ++ le_bytes n w))
  unfolding write_int
  write_int_lem n w p r vs o room =
      let enough : ltb size (length o + n) ≡ false = ground arith in rw enough

  write_arg-scalar :
      (k : Kind) (w p : ℕ) (r vs o : List ℕ)
      → length o + width k ≤ size
      → write_arg size end_ptr (kind_type k) (out r p (w ∷ vs) o)
        ≡ done (out r p vs (o ++ le_bytes (width k) w))
  unfolding write_arg kind_type width
  write_arg-scalar int32 w p r vs o room = write_int_lem 4 w p r vs o room
  write_arg-scalar int64 w p r vs o room = write_int_lem 8 w p r vs o room
  write_arg-scalar uint32 w p r vs o room = write_int_lem 4 w p r vs o room
  write_arg-scalar uint64 w p r vs o room = write_int_lem 8 w p r vs o room
  write_arg-scalar double w p r vs o room = write_int_lem 8 w p r vs o room
  write_arg-scalar pointer w p r vs o room = write_int_lem 8 w p r vs o room
  write_arg-scalar char w p r vs o room = write_int_lem 1 w p r vs o room

  write_text_lem :
      (s rest vs o : List ℕ) (p : ℕ)
      → p + length s ≤ end_ptr
      → length o + length s ≤ size
      → write_text size end_ptr (length s) (out (s ++ rest) p vs o)
        ≡ done (out rest (p + length s) vs (o ++ s))
  unfolding write_text
  write_text_lem [] rest vs o p h room = let e : p + 0 ≡ p = omega arith in rw (e, append-nil o)
  write_text_lem (x ∷ xs) rest vs o p h room =
      let n = length (x ∷ xs) in
      let some_bytes : (n == 0) ≡ false = ground arith in
      let inside : ltb end_ptr (p + n) ≡ false = ground arith in
      let enough : ltb size (length o + n) ≡ false = ground arith in
      rw (some_bytes, inside, enough, read-append n (x ∷ xs) rest p refl)

  write_arg-text :
      (s rest vs o : List ℕ) (p : ℕ)
      → length s < 2 ^ 32
      → p + (4 + length s) ≤ end_ptr
      → length o + (4 + length s) ≤ size
      → write_arg size end_ptr ArgType.string (out (encode (text s) ++ rest) p vs o)
        ≡ done (out rest (p + (4 + length s)) vs (o ++ encode (text s)))
  unfolding write_arg
  write_arg-text s rest vs o p fits h room =
      let inside : ltb end_ptr (p + 4) ≡ false = ground arith in
      let enough : ltb size (length o + 4) ≡ false = ground arith in
      let size4 = length-le_bytes 4 (length s) in
      let longer : length (o ++ le_bytes 4 (length s)) + length s ≤ size =
        omega (arith, length-append o (le_bytes 4 (length s)), size4) in
      let place : p + 4 + length s ≡ p + (4 + length s) = omega arith in
      rw (
        inside,
        append_assoc (le_bytes 4 (length s)) s rest,
        read-append 4 (le_bytes 4 (length s)) (s ++ rest) p size4,
        le_value-le_bytes 4 (length s) fits,
        enough,
        write_text_lem s rest vs (o ++ le_bytes 4 (length s)) (p + 4) (omega arith) longer,
        place,
        append_assoc o (le_bytes 4 (length s)) s,
      )

  -- Pass 2 writes the arguments in their order.
  pub write_args_lem :
      (args : List Arg) (p q : ℕ) (rest o : List ℕ)
      → All IsArg args
      → p + length (strings args) ≡ q
      → q ≤ end_ptr
      → length o + length (encode_args args) ≤ size
      → write_args size end_ptr (types args) (out (strings args ++ rest) p (values args) o)
        ≡ done (out rest q [] (o ++ encode_args args))
  unfolding write_args
  write_args_lem [] p q rest o h e inside room =
      let e' : p ≡ q = omega arith in rw (e', append-nil o)
  write_args_lem (scalar k w ∷ args) p q rest o h e inside room =
      let sizes = length-le_bytes (width k) w in
      let whole = length-append (le_bytes (width k) w) (encode_args args) in
      let longer = length-append o (le_bytes (width k) w) in
      rw (
        write_arg-scalar k w p (strings args ++ rest) (values args) o (omega (arith, sizes, whole)),
        write_args_lem args p q rest (o ++ le_bytes (width k) w) h.1 e inside
            (omega (arith, sizes, whole, longer)),
        append_assoc o (le_bytes (width k) w) (encode_args args),
      )
  write_args_lem (text s ∷ args) p q rest o h e inside room =
      let sizes : length (encode (text s)) ≡ 4 + length s =
        omega (arith, length-append (le_bytes 4 (length s)) s, length-le_bytes 4 (length s)) in
      let whole = length-append (encode (text s)) (encode_args args) in
      let tail = length-append (encode (text s)) (strings args) in
      let longer = length-append o (encode (text s)) in
      rw (
        append_assoc (encode (text s)) (strings args) rest,
        write_arg-text s (strings args ++ rest) (values args) o p h.0 (omega (arith, sizes, tail))
            (omega (arith, sizes, whole)),
        write_args_lem args (p + (4 + length s)) q rest (o ++ encode (text s)) h.1
            (omega (arith, sizes, tail)) inside (omega (arith, sizes, whole, longer)),
        append_assoc o (encode (text s)) (encode_args args),
      )
