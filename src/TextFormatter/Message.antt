-- ===== src/TextFormatter/Message.antt =====
-- src/text_formatter.c: `format_message`. Its loop has the state of the decompressor's
-- `format_log_message`: the text so far, the memory at the read pointer, and the types left.
pub mod Bounds
use cnano_log.Base.{
  ℕ, zero, suc, ◌+◌, ◌-◌, List, [], ◌∷◌, ◌++◌, Bool, true, false, ◌&&◌, if◌then◌else◌, ltb, leb,
  ◌==◌, length, drop,
}
use cnano_log.Base.Bytes.{le_value}
use cnano_log.Outcome.{Outcome, done, ◌>>=◌}
use cnano_log.Format.{
  ArgType, arg_none, int32, int64, uint32, uint64, double, string, pointer, char, other,
}
use cnano_log.Registry.{LogSite, used_types}
use cnano_log.Reader.Context.{Libc, c_string}
use cnano_log.Reader.Message.{Formatting, take_arg, find_char, flag_chars, starts_percent, put_char}

-- "-+ #0123456789.*lhz"
abbrev pub text_flag_chars : List ℕ
text_flag_chars = flag_chars ++ (b'l' ∷ (b'h' ∷ (b'z' ∷ [])))

-- The characters of a conversion behind its `%`: the flags and sizes, and one more.
unfoldable pub text_spec_length : List ℕ → ℕ
unfolding find_char
text_spec_length [] = 0
text_spec_length (c ∷ fmt) = if find_char c text_flag_chars then suc (text_spec_length fmt) else 1

-- `output_end` is the number of bytes that the output has before its terminator.
module _ (output_end : ℕ) where
  -- `snprintf` into the `remaining` bytes: a text that is cut is dropped.
  unfoldable pub fit_text : List ℕ → Formatting → Formatting
  fit_text text s =
      let remaining = output_end - length s.formatted in
      if ltb (length text) remaining then record s { formatted = s.formatted ++ text } else s

  unfoldable pub fit_number : ℕ → (ℕ → List ℕ) → Formatting → Outcome Formatting
  unfolding fit_text take_arg
  fit_number n print s = take_arg n s >>= λ r. done (fit_text (print (le_value (r.0))) (r.1))

  -- A string that does not fit is cut.
  abbrev pub fit_len : ℕ → List ℕ → ℕ
  fit_len str_len formatted =
      if leb output_end (length formatted + str_len) then output_end - length formatted else str_len

  unfoldable pub fit_string : Formatting → Outcome Formatting
  unfolding take_arg
  fit_string s = take_arg 4 s >>= λ r.
      let str_len = le_value (r.0) in
      take_arg (fit_len str_len s.formatted) (r.1) >>= λ q.
      done (record s { formatted = s.formatted ++ (q.0); read_ptr = drop str_len ((r.1).read_ptr) })

  -- The switch on the type.
  unfoldable pub fit_arg : Libc → ArgType → Formatting → Outcome Formatting
  unfolding fit_number fit_string
  fit_arg libc char s = fit_number 1 (λ v. v ∷ []) s
  fit_arg libc int32 s = fit_number 4 libc.print_d s
  fit_arg libc int64 s = fit_number 8 libc.print_lld s
  fit_arg libc uint32 s = fit_number 4 libc.print_u s
  fit_arg libc uint64 s = fit_number 8 libc.print_u s
  fit_arg libc double s = fit_number 8 libc.print_f s
  fit_arg libc string s = fit_string s
  fit_arg libc pointer s = fit_number 8 libc.print_p s
  fit_arg libc arg_none s = done s
  fit_arg libc (other n) s = done s

  -- A conversion; its first result is the number of format characters to skip.
  unfoldable pub message_arg : Libc → List ℕ → Formatting → Outcome (ℕ × Formatting)
  unfolding fit_arg text_spec_length
  message_arg libc fmt s = elim s.arg_types [
    | [] ↦ done (0, put_char b'%' s)
    | t ∷ ts ↦
        fit_arg libc t (record s { arg_types = ts }) >>= λ s'. done (text_spec_length fmt, s')
  ]

  -- One round of the loop, at the character `c` with `fmt` behind it.
  unfoldable pub message_step : Libc → ℕ → List ℕ → Formatting → Outcome (ℕ × Formatting)
  unfolding message_arg starts_percent
  message_step libc c fmt s =
      if c == b'%'
      then (if starts_percent fmt then done (1, put_char c s) else message_arg libc fmt s)
      else done (0, put_char c s)

  -- The loop; `skip` format characters are passed over first.
  unfoldable pub message_loop : Libc → ℕ → List ℕ → Formatting → Outcome Formatting
  unfolding message_step
  message_loop libc skip [] s = done s
  message_loop libc (suc skip) (c ∷ fmt) s = message_loop libc skip fmt s
  message_loop libc zero (c ∷ fmt) s =
      if leb output_end (length s.formatted)
      then done s
      else (message_step libc c fmt s >>= λ r. message_loop libc (r.0) fmt (r.1))

-- The bytes of `output` before its terminator.
unfoldable pub format_message : Libc → LogSite → List ℕ → ℕ → Outcome (List ℕ)
unfolding message_loop
format_message libc site arg_data output_size =
    message_loop (output_size - 1) libc 0 (c_string site.format)
      (record { formatted = []; read_ptr = arg_data; arg_types = used_types site })
    >>= λ s. done s.formatted
