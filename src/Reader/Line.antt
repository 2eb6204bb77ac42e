-- ===== src/Reader/Line.antt =====
-- tools/decompressor.c: `format_output`, the line that is printed for an entry. A write outside the
-- output is a `fault`.
pub mod Fields
pub mod Laws
use cnano_log.Base.{
  ℕ, zero, suc, ◌+◌, ◌-◌, List, [], ◌∷◌, ◌++◌, Bool, if◌then◌else◌, ltb, leb, ◌==◌, length, take,
}
use cnano_log.Outcome.{Outcome, done, fault, ◌>>=◌}
use cnano_log.Decompress.{DictEntry}
use cnano_log.Reader.Context.{Libc, Context, c_string, elapsed_ticks}
use cnano_log.Reader.Levels.{level_to_string}

-- The arguments of a call but its format and output.
pub record Call : Type 0 where
  pub timestamp_str : List ℕ
  pub timestamp_raw : ℕ
  pub ctx : Context
  pub dict : DictEntry
  pub message : List ℕ

-- `snprintf` into the `out_end - out_ptr` bytes that are left, its terminator among them, and the move
-- of `out_ptr` by the whole text. Past `out_end`, the terminator behind the loop is out of bounds.
unfoldable pub print_field : ℕ → List ℕ → List ℕ → Outcome (List ℕ)
print_field out_end text out =
    let written = length out + length text in
    if ltb written out_end
    then done (out ++ text)
    else if (written == out_end)
    then done (out ++ (take (length text - 1) text ++ (if length text == 0 then [] else 0 ∷ [])))
    else fault

-- `if (out_ptr < out_end) *out_ptr++ = c;`
unfoldable pub put_output : ℕ → ℕ → List ℕ → List ℕ
put_output out_end c out = if ltb (length out) out_end then out ++ (c ∷ []) else out

module _ (libc : Libc) (call : Call) (out_end : ℕ) where
  -- The switch, on the character behind a `%`.
  unfoldable pub print_token : ℕ → List ℕ → Outcome (List ℕ)
  unfolding print_field put_output
  print_token c out =
      if c == b't'
      then print_field out_end (c_string (call.timestamp_str)) out
      else if c == b'T'
      then print_field out_end (libc.print_u (call.timestamp_raw)) out
      else if c == b'r'
      then print_field out_end
          (libc.print_seconds (elapsed_ticks call.ctx (call.timestamp_raw))
            ((call.ctx).timestamp_frequency))
          out
      else if c == b'l'
      then print_field out_end
          (c_string (level_to_string libc ((call.ctx).custom_levels) ((call.dict).log_level))) out
      else if c == b'f'
      then print_field out_end (c_string ((call.dict).filename)) out
      else if c == b'L'
      then print_field out_end (libc.print_u ((call.dict).line_number)) out
      else if c == b'm'
      then print_field out_end (c_string (call.message)) out
      else if c == b'%'
      then done (put_output out_end b'%' out)
      else done (put_output out_end c (put_output out_end b'%' out))

  -- A `%` with `fmt` behind it; a `%` at the end of the format is copied.
  unfoldable pub output_percent : List ℕ → List ℕ → Outcome (ℕ × List ℕ)
  unfolding print_token put_output
  output_percent [] out = done (0, put_output out_end b'%' out)
  output_percent (c ∷ fmt) out = print_token c out >>= λ out'. done (1, out')

  unfoldable pub output_step : ℕ → List ℕ → List ℕ → Outcome (ℕ × List ℕ)
  unfolding output_percent
  output_step c fmt out = if c == b'%' then output_percent fmt out else done (0, out ++ (c ∷ []))

  -- The loop; `skip` format characters are passed over first.
  unfoldable pub output_loop : ℕ → List ℕ → List ℕ → Outcome (List ℕ)
  unfolding output_step
  output_loop skip [] out = done out
  output_loop (suc skip) (c ∷ fmt) out = output_loop skip fmt out
  output_loop zero (c ∷ fmt) out =
      if leb out_end (length out)
      then done out
      else (output_step c fmt out >>= λ r. output_loop (r.0) fmt (r.1))

-- The string left in `output`.
unfoldable pub format_output : Libc → List ℕ → Call → ℕ → Outcome (List ℕ)
unfolding output_loop
format_output libc format call output_size =
    output_loop libc call (output_size - 1) 0 (c_string format) [] >>= λ out. done (c_string out)
