-- ===== src/TextFormatter/Pattern.antt =====
-- src/text_formatter.c: `format_entry_with_pattern`. A write outside the output is a `fault`.
use cnano_log.Base.{
  ℕ, zero, suc, ◌-◌, List, [], ◌∷◌, ◌++◌, if◌then◌else◌, leb, ◌==◌, length, take, drop,
}
use cnano_log.Outcome.{Outcome, done, ◌>>=◌}
use cnano_log.Registry.{LogSite}
use cnano_log.Reader.Context.{Libc, c_string}
use cnano_log.Reader.Line.{print_field, put_output}

module _ (libc : Libc) (timestamp_buf level_str : List ℕ) (site : LogSite) (message_buf : List ℕ)
    (out_end : ℕ) where
  -- The part of the time from its eleventh character on, if it is long enough.
  abbrev pub time_part : ℕ → ℕ → List ℕ
  time_part least n =
      if leb least (length timestamp_buf) then take n (drop 11 timestamp_buf) else timestamp_buf

  -- The switch, on the character behind a `%`; each `snprintf` moves `out` as in the decompressor's
  -- `format_output`.
  unfoldable pub pattern_token : ℕ → List ℕ → Outcome (List ℕ)
  unfolding print_field put_output
  pattern_token c out =
      if c == b't'
      then print_field out_end timestamp_buf out
      else if c == b'T'
      then print_field out_end (time_part 23 12) out
      else if c == b'd'
      then print_field out_end (take 10 timestamp_buf) out
      else if c == b'D'
      then print_field out_end (time_part 19 8) out
      else if c == b'l'
      then print_field out_end level_str out
      else if c == b'L'
      then print_field out_end (take 1 level_str) out
      else if c == b'f'
      then print_field out_end (c_string site.filename) out
      else if c == b'F'
      then print_field out_end (c_string site.filename) out
      else if c == b'n'
      then print_field out_end (libc.print_u site.line_number) out
      else if c == b'm'
      then print_field out_end (c_string message_buf) out
      else if c == b'%'
      then done (put_output out_end b'%' out)
      else done (put_output out_end c (put_output out_end b'%' out))

  -- A `%` with `p` behind it; a `%` at the end is copied.
  unfoldable pub pattern_percent : List ℕ → List ℕ → Outcome (ℕ × List ℕ)
  unfolding pattern_token
  pattern_percent [] out = done (0, out ++ (b'%' ∷ []))
  pattern_percent (c ∷ p) out = pattern_token c out >>= λ out'. done (1, out')

  unfoldable pub pattern_step : ℕ → List ℕ → List ℕ → Outcome (ℕ × List ℕ)
  unfolding pattern_percent
  pattern_step c p out = if c == b'%' then pattern_percent p out else done (0, out ++ (c ∷ []))

  -- The loop; `skip` characters of the pattern are passed over first.
  unfoldable pub pattern_loop : ℕ → List ℕ → List ℕ → Outcome (List ℕ)
  unfolding pattern_step
  pattern_loop skip [] out = done out
  pattern_loop (suc skip) (c ∷ p) out = pattern_loop skip p out
  pattern_loop zero (c ∷ p) out =
      if leb out_end (length out)
      then done out
      else (pattern_step c p out >>= λ r. pattern_loop (r.0) p (r.1))

-- The string left in `output`.
unfoldable pub format_entry_with_pattern :
    Libc → List ℕ → List ℕ → List ℕ → LogSite → List ℕ → ℕ → Outcome (List ℕ)
unfolding pattern_loop
format_entry_with_pattern libc pattern timestamp_buf level_str site message_buf output_size =
    pattern_loop libc timestamp_buf level_str site message_buf (output_size - 1) 0
      (c_string pattern) []
    >>= λ out. done (c_string out)
