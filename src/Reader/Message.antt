-- ===== src/Reader/Message.antt =====
-- tools/decompressor.c: `format_log_message`. The loop's state is the text written so far, the memory
-- at the read pointer and the types of the arguments that are not taken. A write or a read outside
-- its memory is a `fault`.
pub mod Pieces
pub mod Numbers
pub mod Loop
pub mod Laws
use cnano_log.Base.{
  ℕ, zero, suc, ◌+◌, ◌-◌, ◌^◌, List, [], ◌∷◌, ◌++◌, some, none, Bool, true, false, ◌&&◌, not,
  if◌then◌else◌, ltb, leb, ◌==◌, length, take, drop, split_at,
}
use cnano_log.Base.Bytes.{le_value}
use cnano_log.Outcome.{Outcome, done, fault, ◌>>=◌}
use cnano_log.Format.{
  ArgType, arg_none, int32, int64, uint32, uint64, double, string, pointer, char, other,
}
use cnano_log.Decompress.{DictEntry, used_types}
use cnano_log.Reader.Context.{Libc, c_string}

-- `formatted` up to `write_ptr`, the memory from `read_ptr` on, and the types from `arg_index` on.
pub record Formatting : Type 0 where
  pub formatted : List ℕ
  pub read_ptr : List ℕ
  pub arg_types : List ArgType

-- The loop ends when the array of 2048 bytes is full up to its terminator.
abbrev pub max_text : ℕ
max_text = 2047

-- What `snprintf` prints at the write pointer, which moves by the whole text even when that is cut;
-- the terminator behind the loop then falls outside the array.
unfoldable pub print_text : List ℕ → Formatting → Outcome Formatting
print_text text s =
    if ltb max_text (length s.formatted + length text)
    then fault
    else done (record s { formatted = s.formatted ++ text })

-- A `memcpy` from the read pointer, which nothing guards.
unfoldable pub take_arg : ℕ → Formatting → Outcome (List ℕ × Formatting)
take_arg n s = elim (split_at n s.read_ptr) [
  | none ↦ fault
  | some r ↦ done (r.0, record s { read_ptr = r.1 })
]

unfoldable pub print_number : ℕ → (ℕ → List ℕ) → Formatting → Outcome Formatting
unfolding take_arg print_text
print_number n print s = take_arg n s >>= λ r. print_text (print (le_value (r.0))) (r.1)

-- `copy_len` is an `int`, so a length of 2^31 or more is negative and `memcpy` takes it for a huge
-- one. A string that does not fit is cut.
abbrev pub copy_len : ℕ → List ℕ → ℕ
copy_len str_len formatted =
    if ltb max_text (length formatted + str_len) then max_text - length formatted else str_len

unfoldable pub print_string : Formatting → Outcome Formatting
unfolding take_arg
print_string s = take_arg 4 s >>= λ r.
    let str_len = le_value (r.0) in
    if leb (2 ^ 31) str_len
    then fault
    else (take_arg (copy_len str_len s.formatted) (r.1) >>= λ q.
        done
          (record s { formatted = s.formatted ++ (q.0); read_ptr = drop str_len ((r.1).read_ptr) }))

-- The switch on the type.
unfoldable pub print_arg : Libc → ArgType → Formatting → Outcome Formatting
unfolding print_number print_string
print_arg libc char s = print_number 1 (λ v. v ∷ []) s
print_arg libc int32 s = print_number 4 libc.print_d s
print_arg libc int64 s = print_number 8 libc.print_lld s
print_arg libc uint32 s = print_number 4 libc.print_u s
print_arg libc uint64 s = print_number 8 libc.print_u s
print_arg libc double s = print_number 8 libc.print_f s
print_arg libc string s = print_string s
print_arg libc pointer s = print_number 8 libc.print_p s
print_arg libc arg_none s = done s
print_arg libc (other n) s = done s

-- `strchr("-+ #0123456789.*", c)`
unfoldable pub find_char : ℕ → List ℕ → Bool
find_char c [] = false
find_char c (d ∷ s) = if c == d then true else find_char c s

abbrev pub flag_chars : List ℕ
flag_chars =
    b'-'
    ∷ (b'+'
        ∷ (b' '
            ∷ (b'#'
                ∷ (b'0'
                    ∷ (b'1'
                        ∷ (b'2'
                            ∷ (b'3'
                                ∷ (b'4'
                                    ∷ (b'5'
                                        ∷ (b'6'
                                            ∷ (b'7'
                                                ∷ (b'8' ∷ (b'9' ∷ (b'.' ∷ (b'*' ∷ [])))))))))))))))

-- The characters of a conversion behind its `%`: the flags, and one more.
unfoldable pub spec_length : List ℕ → ℕ
unfolding find_char
spec_length [] = 0
spec_length (c ∷ fmt) = if find_char c flag_chars then suc (spec_length fmt) else 1

unfoldable pub starts_percent : List ℕ → Bool
starts_percent [] = false
starts_percent (c ∷ fmt) = c == b'%'

abbrev pub put_char : ℕ → Formatting → Formatting
put_char c s = record s { formatted = s.formatted ++ (c ∷ []) }

-- A conversion with an argument; its first result is the number of format characters to skip.
unfoldable pub format_arg : Libc → List ℕ → Formatting → Outcome (ℕ × Formatting)
unfolding print_arg spec_length
format_arg libc fmt s = elim s.arg_types [
  | [] ↦ done (0, put_char b'%' s)
  | t ∷ ts ↦ print_arg libc t (record s { arg_types = ts }) >>= λ s'. done (spec_length fmt, s')
]

-- One round of the loop, at the character `c` with `fmt` behind it.
unfoldable pub format_step : Libc → ℕ → List ℕ → Formatting → Outcome (ℕ × Formatting)
unfolding format_arg starts_percent
format_step libc c fmt s =
    if c == b'%'
    then (if starts_percent fmt then done (1, put_char c s) else format_arg libc fmt s)
    else done (0, put_char c s)

-- The loop; `skip` format characters are passed over first.
unfoldable pub format_loop : Libc → ℕ → List ℕ → Formatting → Outcome Formatting
unfolding format_step
format_loop libc skip [] s = done s
format_loop libc (suc skip) (c ∷ fmt) s = format_loop libc skip fmt s
format_loop libc zero (c ∷ fmt) s =
    if leb max_text (length s.formatted)
    then done s
    else (format_step libc c fmt s >>= λ r. format_loop libc (r.0) fmt (r.1))

-- The text left in `output`.
unfoldable pub format_log_message : Libc → DictEntry → List ℕ → ℕ → Outcome (List ℕ)
unfolding format_loop
format_log_message libc dict arg_data output_size =
    format_loop libc 0 (c_string dict.format)
      (record { formatted = []; read_ptr = arg_data; arg_types = used_types dict })
    >>= λ s. done (take (output_size - 1) (c_string s.formatted))
