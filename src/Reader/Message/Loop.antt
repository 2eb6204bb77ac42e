-- ===== src/Reader/Message/Loop.antt =====
-- tools/decompressor.c: the loop of `format_log_message`, piece by piece of the format.
use cnano_log.Base.{
  ℕ, suc, ◌+◌, ◌<◌, ◌≤◌, ◌≡◌, ◌≢◌, refl, sym, ap, ◌∙◌, List, [], ◌∷◌, ◌++◌, append_assoc,
  append-nil, false, ==_ne, lt→leb_false, length, length-append, All, arith,
}
use cnano_log.Outcome.{done, ◌>>=◌}
use cnano_log.Format.{ArgType}
use cnano_log.Args.{Arg, type_of, encode, encode_args, IsArg, types}
use cnano_log.Reader.Context.{Libc}
use cnano_log.Reader.Message.{
  Formatting, max_text, find_char, flag_chars, spec_length, starts_percent, put_char, format_arg,
  format_step, format_loop,
}
use cnano_log.Reader.Message.Pieces.{
  Piece, plain, percent, conversion, IsFlag, IsPiece, piece_chars, format_chars, arg_text, render,
}
use cnano_log.Reader.Message.Numbers.{formatting, print_arg-encode}

pub IsFlag-not : (d c : ℕ) → find_char c flag_chars ≡ false → IsFlag d → d ≢ c
IsFlag-not d c hc h e = cc

spec_length-flags :
    (flags fmt : List ℕ) (c : ℕ)
    → All IsFlag flags
    → find_char c flag_chars ≡ false
    → spec_length (flags ++ (c ∷ fmt)) ≡ suc (length flags)
unfolding spec_length
spec_length-flags [] fmt c h hc = rw hc
spec_length-flags (d ∷ flags) fmt c h hc = rw (h.0) (ap suc (spec_length-flags flags fmt c h.1 hc))

starts_percent-flags :
    (flags fmt : List ℕ) (c : ℕ)
    → All IsFlag flags
    → c ≢ b'%'
    → starts_percent (flags ++ (c ∷ fmt)) ≡ false
unfolding starts_percent find_char
starts_percent-flags [] fmt c h hc = ==_ne c b'%' hc
starts_percent-flags (d ∷ flags) fmt c h hc = ==_ne d b'%' (IsFlag-not d b'%' refl h.0)

module _ (libc : Libc) where
  loop-skip :
      (flags fmt : List ℕ) (c : ℕ) (s : Formatting)
      → format_loop libc (suc (length flags)) (flags ++ (c ∷ fmt)) s ≡ format_loop libc 0 fmt s
  unfolding format_loop
  loop-skip [] fmt c s = refl
  loop-skip (d ∷ flags) fmt c s = loop-skip flags fmt c s

  module _ (s : Formatting) (room : length s.formatted < max_text) where
    loop-plain :
        (c : ℕ) (fmt : List ℕ)
        → c ≢ b'%'
        → format_loop libc 0 (c ∷ fmt) s ≡ format_loop libc 0 fmt (put_char c s)
    unfolding format_loop format_step
    loop-plain c fmt h = rw (lt→leb_false max_text (length s.formatted) room, ==_ne c b'%' h)

    loop-percent :
        (fmt : List ℕ)
        → format_loop libc 0 (b'%' ∷ (b'%' ∷ fmt)) s ≡ format_loop libc 0 fmt (put_char b'%' s)
    unfolding format_loop format_step starts_percent
    loop-percent fmt = rw (lt→leb_false max_text (length s.formatted) room)

  -- A conversion that has an argument.
  loop-conversion :
      (flags fmt : List ℕ) (c : ℕ) (a : Arg) (f rest : List ℕ) (ts : List ArgType)
      → All IsFlag flags
      → find_char c flag_chars ≡ false
      → c ≢ b'%'
      → IsArg a
      → length f < max_text
      → length f + length (arg_text libc a) ≤ max_text
      → format_loop libc 0
          (b'%' ∷ (flags ++ (c ∷ fmt)))
          (formatting f (encode a ++ rest) (type_of a ∷ ts))
        ≡ format_loop libc 0 fmt (formatting (f ++ arg_text libc a) rest ts)
  unfolding format_loop format_step format_arg
  loop-conversion flags fmt c a f rest ts hf hc percent_free ha room fits =
      rw
        (
          lt→leb_false max_text (length f) room,
          starts_percent-flags flags fmt c hf percent_free,
          print_arg-encode libc a f rest ts ha fits,
          spec_length-flags flags fmt c hf hc,
        )
        (loop-skip flags fmt c (formatting (f ++ arg_text libc a) rest ts))

  loop-copied :
      (flags fmt : List ℕ) (c : ℕ) (f mem : List ℕ) (ts : List ArgType)
      → All IsFlag flags
      → c ≢ b'%'
      → length f + suc (length flags) < max_text
      → format_loop libc 0 (flags ++ (c ∷ fmt)) (formatting f mem ts)
        ≡ format_loop libc 0 fmt (formatting (f ++ (flags ++ (c ∷ []))) mem ts)
  unfolding find_char
  loop-copied [] fmt c f mem ts hf hc room = loop-plain (formatting f mem ts) (omega arith) c fmt hc
  loop-copied (d ∷ flags) fmt c f mem ts hf hc room =
      loop-plain (formatting f mem ts) (omega arith) d (flags ++ (c ∷ fmt))
        (IsFlag-not d b'%' refl hf.0)
      ∙ loop-copied flags fmt c (f ++ (d ∷ [])) mem ts hf.1 hc
          (omega (arith, length-append f (d ∷ [])))
      ∙ rw (append_assoc f (d ∷ []) (flags ++ (c ∷ [])))

  -- A conversion that has none is copied.
  loop-unmatched :
      (flags fmt : List ℕ) (c : ℕ) (f mem : List ℕ)
      → All IsFlag flags
      → c ≢ b'%'
      → length f + length (piece_chars (conversion flags c)) < max_text
      → format_loop libc 0 (b'%' ∷ (flags ++ (c ∷ fmt))) (formatting f mem [])
        ≡ format_loop libc 0 fmt (formatting (f ++ piece_chars (conversion flags c)) mem [])
  unfolding format_loop format_step format_arg piece_chars
  loop-unmatched flags fmt c f mem hf hc room =
      rw
        (
          lt→leb_false max_text (length f) (omega arith),
          starts_percent-flags flags fmt c hf hc,
          sym (append_assoc f (b'%' ∷ []) (flags ++ (c ∷ []))),
        )
        (loop-copied flags fmt c (f ++ (b'%' ∷ [])) mem [] hf hc
          (omega (arith, length-append flags (c ∷ []), length-append f (b'%' ∷ []))))

  -- The loop from a text `f` on, for the formats and arguments of `render`.
  pub loop-render :
      (ps : List Piece) (args : List Arg) (f rest : List ℕ)
      → All IsPiece ps
      → All IsArg args
      → length f + length (render libc ps args) < max_text
      → (format_loop libc 0 (format_chars ps) (formatting f (encode_args args ++ rest) (types args))
          >>= λ s. done s.formatted)
        ≡ done (f ++ render libc ps args)
  unfolding format_loop format_chars render piece_chars IsPiece
  loop-render [] args f rest hp ha room = rw (append-nil f)
  loop-render (plain c ∷ ps) args f rest hp ha room =
      let s = formatting f (encode_args args ++ rest) (types args) in
      rw
        (
          loop-plain s (omega arith) c (format_chars ps) hp.0.1,
          sym (append_assoc f (c ∷ []) (render libc ps args)),
        )
        (loop-render ps args (f ++ (c ∷ [])) rest hp.1 ha (omega (arith, length-append f (c ∷ []))))
  loop-render (percent ∷ ps) args f rest hp ha room =
      let s = formatting f (encode_args args ++ rest) (types args) in
      rw
        (
          loop-percent s (omega arith) (format_chars ps),
          sym (append_assoc f (b'%' ∷ []) (render libc ps args)),
        )
        (loop-render ps args (f ++ (b'%' ∷ [])) rest hp.1 ha
          (omega (arith, length-append f (b'%' ∷ []))))
  loop-render (conversion flags c ∷ ps) [] f rest hp ha room =
      let p = piece_chars (conversion flags c) in
      rw
        (
          append_assoc flags (c ∷ []) (format_chars ps),
          loop-unmatched flags (format_chars ps) c f rest hp.0.0 hp.0.1.1.1
              (omega (arith, length-append p (render libc ps []))),
          sym (append_assoc f p (render libc ps [])),
        )
        (loop-render ps [] (f ++ p) rest hp.1 ha
          (omega (arith, length-append f p, length-append p (render libc ps []))))
  loop-render (conversion flags c ∷ ps) (a ∷ args) f rest hp ha room =
      let t = arg_text libc a in
      let whole = length-append t (render libc ps args) in
      rw
        (
          append_assoc flags (c ∷ []) (format_chars ps),
          append_assoc (encode a) (encode_args args) rest,
          loop-conversion flags (format_chars ps) c a f (encode_args args ++ rest) (types args)
              hp.0.0 hp.0.1.0 hp.0.1.1.1 ha.0 (omega arith) (omega (arith, whole)),
          sym (append_assoc f t (render libc ps args)),
        )
        (loop-render ps args (f ++ t) rest hp.1 ha.1 (omega (arith, length-append f t, whole)))
