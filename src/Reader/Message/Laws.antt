-- ===== src/Reader/Message/Laws.antt =====
-- tools/decompressor.c: `format_log_message` against the meaning of a format string.
use cnano_log.Base.{
  ℕ, ◌-◌, ◌<◌, ◌≡◌, refl, ap, ◌∙◌, List, [], ◌∷◌, ◌++◌, append_assoc, ==_ne, length, take, All,
  arith,
}
use cnano_log.Outcome.{Outcome, done, rejected, fault, ◌>>=◌}
use cnano_log.Args.{Arg, encode_args, IsArg, types}
use cnano_log.Decompress.{DictEntry, used_types}
use cnano_log.Reader.Context.{Libc, c_string}
use cnano_log.Reader.Message.{Formatting, max_text, find_char, format_loop, format_log_message}
use cnano_log.Reader.Message.Pieces.{
  Piece, plain, percent, conversion, IsFlag, IsPiece, piece_chars, format_chars, render,
}
use cnano_log.Reader.Message.Numbers.{formatting}
use cnano_log.Reader.Message.Loop.{IsFlag-not, loop-render}

-- What follows a result reads no more of it than the text.
bind-text :
    (o : Outcome Formatting) (t : List ℕ) (g : List ℕ → Outcome (List ℕ))
    → (o >>= λ s. done s.formatted) ≡ done t
    → (o >>= λ s. g s.formatted) ≡ g t
bind-text o t g h = bind-assoc o ∙ ap (λ r. r >>= g) h
  where
    bind-assoc :
        (o : Outcome Formatting)
        → (o >>= λ s. g s.formatted) ≡ ((o >>= λ s. done s.formatted) >>= g)
    bind-assoc (done s) = refl
    bind-assoc rejected = refl
    bind-assoc fault = refl

module _ (libc : Libc) where
  c_string-flags :
      (flags rest : List ℕ) → All IsFlag flags → c_string (flags ++ rest) ≡ flags ++ c_string rest
  unfolding c_string find_char
  c_string-flags [] rest h = refl
  c_string-flags (d ∷ flags) rest h =
      rw (==_ne d 0 (IsFlag-not d 0 refl h.0)) (ap (λ t. d ∷ t) (c_string-flags flags rest h.1))

  c_string-format_chars :
      (ps : List Piece) → All IsPiece ps → c_string (format_chars ps) ≡ format_chars ps
  unfolding c_string format_chars piece_chars IsPiece
  c_string-format_chars [] h = refl
  c_string-format_chars (plain c ∷ ps) h =
      rw (==_ne c 0 h.0.0) (ap (λ t. c ∷ t) (c_string-format_chars ps h.1))
  c_string-format_chars (percent ∷ ps) h =
      ap (λ t. b'%' ∷ (b'%' ∷ t)) (c_string-format_chars ps h.1)
  c_string-format_chars (conversion flags c ∷ ps) h = rw (
    append_assoc flags (c ∷ []) (format_chars ps),
    c_string-flags flags (c ∷ format_chars ps) h.0.0,
    ==_ne c 0 h.0.1.1.0,
    c_string-format_chars ps h.1,
  )

  -- The message of a call is its format string with each conversion replaced by the text of its
  -- argument, `%%` by `%`, and a conversion without an argument left as it stands, up to the first
  -- terminator and cut to the output. The text is shorter than 2047 bytes, the pieces form the
  -- format string, and the argument data are those of the call, whatever stands behind them.
  pub format_log_message-render :
      (dict : DictEntry) (ps : List Piece) (args : List Arg) (rest : List ℕ) (output_size : ℕ)
      → dict.format ≡ format_chars ps
      → used_types dict ≡ types args
      → All IsPiece ps
      → All IsArg args
      → length (render libc ps args) < max_text
      → format_log_message libc dict (encode_args args ++ rest) output_size
        ≡ done (take (output_size - 1) (c_string (render libc ps args)))
  unfolding format_log_message
  format_log_message-render dict ps args rest output_size hfmt htypes hp ha room =
      rw (hfmt, c_string-format_chars ps hp, htypes)
        (bind-text
          (format_loop libc 0 (format_chars ps)
            (formatting [] (encode_args args ++ rest) (types args)))
          _ (λ t. done (take (output_size - 1) (c_string t)))
          (loop-render libc ps args [] rest hp ha (omega (arith, room))))
