-- ===== src/Reader/Message/Numbers.antt =====
-- tools/decompressor.c: one argument printed by `format_log_message`.
use cnano_log.Base.{
  ℕ, ◌+◌, ◌^◌, ◌<◌, ◌≤◌, ◌≡◌, refl, List, [], ◌∷◌, ◌++◌, append_assoc, le→ltb_false, lt→leb_false,
  length, drop-append, split_at-append, arith,
}
use cnano_log.Base.Bytes.{le_bytes, length-le_bytes, le_value-le_bytes}
use cnano_log.Outcome.{done}
use cnano_log.Format.{ArgType}
use cnano_log.Args.{
  int32, int64, uint32, uint64, double, pointer, char, width, Arg, scalar, text, type_of, encode,
  IsArg, kind_type,
}
use cnano_log.Reader.Context.{Libc}
use cnano_log.Reader.Message.{
  Formatting, max_text, print_text, take_arg, print_number, print_string, print_arg,
}
use cnano_log.Reader.Message.Pieces.{arg_text}

abbrev pub formatting : List ℕ → List ℕ → List ArgType → Formatting
formatting f mem ts = record { formatted = f; read_ptr = mem; arg_types = ts }

module _ (f rest : List ℕ) (ts : List ArgType) where
  pub take_arg-append :
      (n : ℕ) (xs : List ℕ)
      → length xs ≡ n
      → take_arg n (formatting f (xs ++ rest) ts) ≡ done (xs, formatting f rest ts)
  unfolding take_arg
  take_arg-append n xs h = rw (split_at-append n xs rest h, take_arg)

module _ (f rest : List ℕ) (ts : List ArgType) where
  pub print_number-le_bytes :
      (n w : ℕ) (print : ℕ → List ℕ)
      → w < 256 ^ n
      → length f + length (print w) ≤ max_text
      → print_number n print (formatting f (le_bytes n w ++ rest) ts)
        ≡ done (formatting (f ++ print w) rest ts)
  unfolding print_number print_text
  print_number-le_bytes n w print h room = rw (
    take_arg-append f rest ts n (le_bytes n w) (length-le_bytes n w),
    le_value-le_bytes n w h,
    le→ltb_false max_text (length f + length (print w)) room,
  )

  print_string-encode :
      (s : List ℕ)
      → length f + length s ≤ max_text
      → print_string (formatting f ((le_bytes 4 (length s) ++ s) ++ rest) ts)
        ≡ done (formatting (f ++ s) rest ts)
  unfolding print_string
  print_string-encode s room = rw (
    append_assoc (le_bytes 4 (length s)) s rest,
    take_arg-append f (s ++ rest) ts 4 (le_bytes 4 (length s)) (length-le_bytes 4 (length s)),
    le_value-le_bytes 4 (length s) (omega arith),
    lt→leb_false (2 ^ 31) (length s) (omega arith),
    le→ltb_false max_text (length f + length s) room,
    take_arg-append f rest ts (length s) s refl,
    drop-append s rest,
  )

-- An argument whose text fits is printed behind the text before it, and its bytes are passed over.
pub print_arg-encode :
    (libc : Libc) (a : Arg) (f rest : List ℕ) (ts : List ArgType)
    → IsArg a
    → length f + length (arg_text libc a) ≤ max_text
    → print_arg libc (type_of a) (formatting f (encode a ++ rest) ts)
      ≡ done (formatting (f ++ arg_text libc a) rest ts)
unfolding print_arg arg_text kind_type width
print_arg-encode libc (scalar int32 w) f rest ts h room =
    print_number-le_bytes f rest ts 4 w libc.print_d h room
print_arg-encode libc (scalar int64 w) f rest ts h room =
    print_number-le_bytes f rest ts 8 w libc.print_lld h room
print_arg-encode libc (scalar uint32 w) f rest ts h room =
    print_number-le_bytes f rest ts 4 w libc.print_u h room
print_arg-encode libc (scalar uint64 w) f rest ts h room =
    print_number-le_bytes f rest ts 8 w libc.print_u h room
print_arg-encode libc (scalar double w) f rest ts h room =
    print_number-le_bytes f rest ts 8 w libc.print_f h room
print_arg-encode libc (scalar pointer w) f rest ts h room =
    print_number-le_bytes f rest ts 8 w libc.print_p h room
print_arg-encode libc (scalar char w) f rest ts h room =
    print_number-le_bytes f rest ts 1 w (λ v. v ∷ []) h room
print_arg-encode libc (text s) f rest ts h room = print_string-encode f rest ts s room
