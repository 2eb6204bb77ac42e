-- ===== src/ArgPacking/Laws.antt =====
-- src/arg_packing.h: what is packed, and when the buffer is too small.
use cnano_log.Base.{
  ℕ, ◌+◌, ◌%◌, ◌^◌, ◌<◌, ◌≤◌, ◌≡◌, refl, List, [], ◌∷◌, ◌++◌, some, false, if◌then◌else◌, ltb,
  le→ltb_false, lt→ltb, dec_lt, length, take, length-append, All, append_assoc, append-nil, arith,
}
use cnano_log.Base.Bytes.{le_bytes, length-le_bytes}
use cnano_log.Outcome.{done, rejected}
use cnano_log.Format.{ArgType}
use cnano_log.Args.{Kind, int32, int64, uint32, uint64, double, pointer, char, kind_type, width}
use cnano_log.Args.{Arg, scalar, text, encode, encode_args, IsArg, types}
use cnano_log.ArgPacking.{
  VaArg, word, chars, Packing, put_word, put_chars, pack_arg, pack_args, arg_pack_write_fast,
}

-- The variadic list of a call with these arguments.
abbrev pub va_list : List Arg → List VaArg
va_list [] = []
va_list (scalar k w ∷ args) = word w ∷ va_list args
va_list (text s ∷ args) = chars (some s) ∷ va_list args

take_all : (xs : List ℕ) → take (length xs) xs ≡ xs
take_all [] = refl
take_all (x ∷ xs) = rw (take_all xs)

length_text : (s : List ℕ) → length (encode (text s)) ≡ 4 + length s
length_text s = omega (arith, length-append (le_bytes 4 (length s)) s, length-le_bytes 4 (length s))

abbrev packing : List ℕ → List VaArg → Packing
packing w r = record { write_ptr = w; args = r }

module _ (size : ℕ) where
  pack_arg-scalar :
      (k : Kind) (w : ℕ) (o : List ℕ) (r : List VaArg)
      → pack_arg size (kind_type k) (packing o (word w ∷ r)) ≡ (
          if ltb size (length o + width k)
          then rejected
          else done (packing (o ++ le_bytes (width k) w) r))
  unfolding pack_arg put_word kind_type width
  pack_arg-scalar int32 w o r = refl
  pack_arg-scalar int64 w o r = refl
  pack_arg-scalar uint32 w o r = refl
  pack_arg-scalar uint64 w o r = refl
  pack_arg-scalar double w o r = refl
  pack_arg-scalar pointer w o r = refl
  pack_arg-scalar char w o r = refl

  pack_arg-text :
      (s o : List ℕ) (r : List VaArg)
      → length s < 2 ^ 32
      → pack_arg size ArgType.string (packing o (chars (some s) ∷ r)) ≡ (
          if ltb size (length o + 4 + length s)
          then rejected
          else done (packing (o ++ encode (text s)) r))
  unfolding pack_arg put_chars
  pack_arg-text s o r h = let e : length s % 2 ^ 32 ≡ length s = omega arith in rw (e, take_all s)

  pack_args-fit :
      (args : List Arg) (o : List ℕ)
      → All IsArg args
      → length o + length (encode_args args) ≤ size
      → pack_args size (types args) (packing o (va_list args))
        ≡ done (packing (o ++ encode_args args) [])
  unfolding pack_args
  pack_args-fit [] o h room = rw (append-nil o)
  pack_args-fit (scalar k w ∷ args) o h room =
      let sizes = length-le_bytes (width k) w in
      let whole = length-append (le_bytes (width k) w) (encode_args args) in
      let longer = length-append o (le_bytes (width k) w) in
      let enough : ltb size (length o + width k) ≡ false =
        le→ltb_false _ _ (omega (arith, sizes, whole)) in
      rw (
        pack_arg-scalar k w o (va_list args),
        enough,
        pack_args-fit args (o ++ le_bytes (width k) w) h.1 (omega (arith, sizes, whole, longer)),
        append_assoc o (le_bytes (width k) w) (encode_args args),
      )
  pack_args-fit (text s ∷ args) o h room =
      let sizes = length_text s in
      let whole = length-append (encode (text s)) (encode_args args) in
      let longer = length-append o (encode (text s)) in
      let enough : ltb size (length o + 4 + length s) ≡ false =
        le→ltb_false _ _ (omega (arith, sizes, whole)) in
      rw (
        pack_arg-text s o (va_list args) h.0,
        enough,
        pack_args-fit args (o ++ encode (text s)) h.1 (omega (arith, sizes, whole, longer)),
        append_assoc o (encode (text s)) (encode_args args),
      )

  pack_args-overflow :
      (args : List Arg) (o : List ℕ)
      → All IsArg args
      → length o ≤ size
      → size < length o + length (encode_args args)
      → pack_args size (types args) (packing o (va_list args)) ≡ rejected
  unfolding pack_args
  pack_args-overflow [] o h room over = absurd (omega arith)
  pack_args-overflow (scalar k w ∷ args) o h room over =
      let sizes = length-le_bytes (width k) w in
      let whole = length-append (le_bytes (width k) w) (encode_args args) in
      let longer = length-append o (le_bytes (width k) w) in
      elim (dec_lt size (length o + width k)) [
        | yes e ↦ rw (pack_arg-scalar k w o (va_list args), lt→ltb _ _ e)
        | no e ↦
            rw
              (
                pack_arg-scalar k w o (va_list args),
                le→ltb_false size (length o + width k) (omega arith),
              )
              (pack_args-overflow args (o ++ le_bytes (width k) w) h.1
                (omega (arith, sizes, longer)) (omega (arith, sizes, whole, longer)))
      ]
  pack_args-overflow (text s ∷ args) o h room over =
      let sizes = length_text s in
      let whole = length-append (encode (text s)) (encode_args args) in
      let longer = length-append o (encode (text s)) in
      elim (dec_lt size (length o + 4 + length s)) [
        | yes e ↦ rw (pack_arg-text s o (va_list args) h.0, lt→ltb _ _ e)
        | no e ↦
            rw
              (
                pack_arg-text s o (va_list args) h.0,
                le→ltb_false size (length o + 4 + length s) (omega arith),
              )
              (pack_args-overflow args (o ++ encode (text s)) h.1 (omega (arith, sizes, longer))
                (omega (arith, sizes, whole, longer)))
      ]

-- The arguments of a call are packed into their layout exactly if the layout fits the buffer;
-- otherwise nothing is returned.
pub arg_pack_write_fast_lem :
    (size : ℕ) (args : List Arg)
    → All IsArg args
    → arg_pack_write_fast size (types args) (va_list args)
      ≡ (if ltb size (length (encode_args args)) then rejected else done (encode_args args))
unfolding arg_pack_write_fast
arg_pack_write_fast_lem size args h = elim (dec_lt size (length (encode_args args))) [
  | yes e ↦ rw (pack_args-overflow size args [] h (omega arith) (omega arith), lt→ltb _ _ e)
  | no e ↦ rw (
    pack_args-fit size args [] h (omega arith),
    le→ltb_false size (length (encode_args args)) (omega arith),
  )
]
