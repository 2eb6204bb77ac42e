-- ===== src/TextFormatter/Message/Bounds.antt =====
-- src/text_formatter.c: `format_message` stays in its output, whatever the format string is.
use cnano_log.Base.{
  ℕ, zero, suc, ◌+◌, ◌-◌, ◌^◌, ◌<◌, ◌≤◌, ◌≡◌, refl, sym, ap, ◌∙◌, List, [], ◌∷◌, ◌++◌, append_assoc,
  Bool-cases, inl, inr, ◌==◌, lt→ltb, le→ltb_false, le→leb, lt→leb_false, dec_lt, length,
  length-append, length-take, take, drop, drop-append, take-append-drop, All, arith,
}
use cnano_log.Base.Bytes.{le_bytes, le_value, length-le_bytes, le_value-le_bytes}
use cnano_log.Outcome.{Outcome, done}
use cnano_log.Format.{ArgType}
use cnano_log.Args.{
  int32, int64, uint32, uint64, double, pointer, char, kind_type, width, Arg, scalar, text, type_of,
  encode, encode_args, IsArg, types,
}
use cnano_log.Registry.{LogSite, used_types}
use cnano_log.Reader.Context.{Libc, c_string}
use cnano_log.Reader.Message.{Formatting, take_arg, starts_percent}
use cnano_log.Reader.Message.Numbers.{formatting, take_arg-append}
use cnano_log.TextFormatter.Message.{
  text_spec_length, fit_text, fit_number, fit_len, fit_string, fit_arg, message_arg, message_step,
  message_loop, format_message,
}

module _ (output_end : ℕ) (ts : List ArgType) (rest : List ℕ) where
  -- A step that moves on to `rest`, with a text that has room.
  abbrev Fits : Outcome Formatting → Type 0
  Fits o = (f : List ℕ) × ((o ≡ done (formatting f rest ts)) × (length f ≤ output_end))

  fit_text-Fits :
      (new f : List ℕ)
      → length f ≤ output_end
      → Fits (done (fit_text output_end new (formatting f rest ts)))
  unfolding fit_text
  fit_text-Fits new f h = elim (dec_lt (length new) (output_end - length f)) [
    | yes e ↦ (
      f ++ new,
      (rw (lt→ltb (length new) (output_end - length f) e) refl, omega (arith, length-append f new)),
    )
    | no e ↦ (f, (rw (le→ltb_false (length new) (output_end - length f) (omega arith)) refl, h))
  ]

  fit_number-Fits :
      (n w : ℕ) (print : ℕ → List ℕ) (f : List ℕ)
      → length f ≤ output_end
      → Fits (fit_number output_end n print (formatting f (le_bytes n w ++ rest) ts))
  unfolding fit_number
  fit_number-Fits n w print f h =
      let (f', (e, fits)) = fit_text-Fits (print (le_value (le_bytes n w))) f h in
      (f', (rw (take_arg-append f rest ts n (le_bytes n w) (length-le_bytes n w)) e, fits))

  fit_len-bound :
      (n : ℕ) (f : List ℕ)
      → length f ≤ output_end
      → (fit_len output_end n f ≤ n) × (length f + fit_len output_end n f ≤ output_end)
  fit_len-bound n f h = elim (dec_lt (length f + n) output_end) [
    | yes e ↦ rw (lt→leb_false output_end (length f + n) e) (omega arith, omega arith)
    | no e ↦ rw (le→leb output_end (length f + n) (omega arith)) (omega arith, omega arith)
  ]

  fit_string-Fits :
      (s f : List ℕ)
      → length f ≤ output_end
      → length s < 2 ^ 32
      → Fits (fit_string output_end (formatting f ((le_bytes 4 (length s) ++ s) ++ rest) ts))
  unfolding fit_string
  fit_string-Fits s f h small =
      let k = fit_len output_end (length s) f in
      let (short, fits) = fit_len-bound (length s) f h in
      let cut : s ++ rest ≡ take k s ++ (drop k s ++ rest) =
        ap (λ t. t ++ rest) (sym (take-append-drop k s))
        ∙ append_assoc (take k s) (drop k s) rest in
      let size : length (take k s) ≡ k = omega (arith, length-take k s, short) in
      let got : take_arg k (formatting f (s ++ rest) ts)
          ≡ done (take k s, formatting f (drop k s ++ rest) ts) =
        ap (λ m. take_arg k (formatting f m ts)) cut
        ∙ take_arg-append f (drop k s ++ rest) ts k (take k s) size in
      (
        f ++ take k s,
        (
          rw (
            append_assoc (le_bytes 4 (length s)) s rest,
            take_arg-append f (s ++ rest) ts 4 (le_bytes 4 (length s))
                (length-le_bytes 4 (length s)),
            le_value-le_bytes 4 (length s) small,
            got,
            drop-append s rest,
          ),
          omega (arith, length-append f (take k s), size, fits),
        ),
      )

  fit_arg-Fits :
      (libc : Libc) (a : Arg) (f : List ℕ)
      → length f ≤ output_end
      → IsArg a
      → Fits (fit_arg output_end libc (type_of a) (formatting f (encode a ++ rest) ts))
  unfolding fit_arg kind_type width
  fit_arg-Fits libc (scalar int32 w) f h v = fit_number-Fits 4 w libc.print_d f h
  fit_arg-Fits libc (scalar int64 w) f h v = fit_number-Fits 8 w libc.print_lld f h
  fit_arg-Fits libc (scalar uint32 w) f h v = fit_number-Fits 4 w libc.print_u f h
  fit_arg-Fits libc (scalar uint64 w) f h v = fit_number-Fits 8 w libc.print_u f h
  fit_arg-Fits libc (scalar double w) f h v = fit_number-Fits 8 w libc.print_f f h
  fit_arg-Fits libc (scalar pointer w) f h v = fit_number-Fits 8 w libc.print_p f h
  fit_arg-Fits libc (scalar char w) f h v = fit_number-Fits 1 w (λ c. c ∷ []) f h
  fit_arg-Fits libc (text s) f h v = fit_string-Fits s f h v

module _ (output_end : ℕ) (libc : Libc) (rest : List ℕ) where
  -- A result with a text that has room.
  abbrev Bounded : Outcome Formatting → Type 0
  Bounded o = (s : Formatting) × ((o ≡ done s) × (length s.formatted ≤ output_end))

  -- A step, with what it leaves of the arguments.
  abbrev StepBounded : Outcome (ℕ × Formatting) → Type 0
  StepBounded o =
      (k : ℕ) × ((args : List Arg) × ((f : List ℕ) × ((o
              ≡ done (k, formatting f (encode_args args ++ rest) (types args)))
            × ((length f ≤ output_end) × All IsArg args))))

  message_arg-Bounded :
      (fmt : List ℕ) (args : List Arg) (f : List ℕ)
      → length f < output_end
      → All IsArg args
      → StepBounded
          (message_arg output_end libc fmt (formatting f (encode_args args ++ rest) (types args)))
  unfolding message_arg
  message_arg-Bounded fmt [] f h v =
      (0, ([], (f ++ (b'%' ∷ []), (refl, (omega (arith, length-append f (b'%' ∷ [])), tt)))))
  message_arg-Bounded fmt (a ∷ args) f h v =
      let (f', (e, fits)) =
        fit_arg-Fits output_end (types args) (encode_args args ++ rest) libc a f (omega arith)
          v.0 in
      (
        text_spec_length fmt,
        (args, (f', (rw (append_assoc (encode a) (encode_args args) rest, e) refl, (fits, v.1)))),
      )

  message_step-Bounded :
      (c : ℕ) (fmt : List ℕ) (args : List Arg) (f : List ℕ)
      → length f < output_end
      → All IsArg args
      → StepBounded (
          message_step output_end libc c fmt (formatting f (encode_args args ++ rest) (types args)))
  unfolding message_step
  message_step-Bounded c fmt args f h v =
      let room : length (f ++ (c ∷ [])) ≤ output_end = omega (arith, length-append f (c ∷ [])) in
      elim (Bool-cases (c == b'%')) [
        | inr plain ↦ rw plain (0, (args, (f ++ (c ∷ []), (refl, (room, v)))))
        | inl mark ↦ elim (Bool-cases (starts_percent fmt)) [
          | inl twice ↦ rw (mark, twice) (1, (args, (f ++ (c ∷ []), (refl, (room, v)))))
          | inr once ↦ rw (mark, once) (message_arg-Bounded fmt args f h v)
        ]
      ]

  loop-Bounded :
      (skip : ℕ) (fmt : List ℕ) (args : List Arg) (f : List ℕ)
      → length f ≤ output_end
      → All IsArg args
      → Bounded (
          message_loop output_end libc skip fmt
            (formatting f (encode_args args ++ rest) (types args)))
  unfolding message_loop
  loop-Bounded skip [] args f h v =
      (formatting f (encode_args args ++ rest) (types args), (refl, h))
  loop-Bounded (suc skip) (c ∷ fmt) args f h v = loop-Bounded skip fmt args f h v
  loop-Bounded zero (c ∷ fmt) args f h v = elim (dec_lt (length f) output_end) [
    | yes more ↦
        let (k, (args', (f', (e, (fits, v'))))) = message_step-Bounded c fmt args f more v in
        let (s, (e', bound)) = loop-Bounded k fmt args' f' fits v' in
        (s, (rw (lt→leb_false output_end (length f) more, e) e', bound))
    | no full ↦ (
      formatting f (encode_args args ++ rest) (types args),
      (rw (le→leb output_end (length f) (omega arith)) refl, h),
    )
  ]

-- Whatever the format string is, a message made of the argument data of a call with the site's types
-- is produced, without a read outside these data, and leaves room for the terminator in the output.
pub length-format_message :
    (libc : Libc) (site : LogSite) (args : List Arg) (rest : List ℕ) (output_size : ℕ)
    → used_types site ≡ types args
    → All IsArg args
    → 0 < output_size
    → (message : List ℕ) × ((format_message libc site (encode_args args ++ rest) output_size
          ≡ done message)
        × (length message < output_size))
unfolding format_message
length-format_message libc site args rest output_size typed v positive =
    let (s, (e, bound)) =
      loop-Bounded (output_size - 1) libc rest 0 (c_string site.format) args [] (omega arith) v in
    (s.formatted, (rw (typed, e) refl, omega (arith, bound, positive)))
