-- ===== src/TextFormatter.antt =====
-- src/text_formatter.c: the text writer, which formats entries as lines in the background thread. The
-- C library's number and time formatting is a parameter, and so are the outcomes of its file calls.
pub mod Message
pub mod Pattern
use cnano_log.Base.{
  ℕ, ◌+◌, ◌-◌, ◌^◌, ◌%◌, List, [], ◌∷◌, ◌++◌, Option, none, some, Bool, true, false, if◌then◌else◌,
  ◌==◌, length, take,
}
use cnano_log.Outcome.{Outcome, done, ◌>>=◌}
use cnano_log.Registry.{LogRegistry, LogSite, log_registry_get}
use cnano_log.Reader.Context.{Libc, c_string}
use cnano_log.Reader.Levels.{info_name, warn_name, error_name, debug_name, unknown_name}
use cnano_log.TextFormatter.Message.{format_message}
use cnano_log.TextFormatter.Pattern.{format_entry_with_pattern}

-- `struct text_writer`; `file` is what its file holds, and `none` is NULL.
pub record TextWriter : Type 0 where
  pub file : Option (List ℕ)
  pub timestamp_frequency : ℕ
  pub start_timestamp : ℕ
  pub start_time_sec : ℕ
  pub start_time_nsec : ℕ
  pub bytes_written : ℕ
  pub pattern : Option (List ℕ)

-- `none` is a request for memory or a file that is refused; a file that is opened holds what it held.
unfoldable pub text_writer_create : Bool → Option (List ℕ) → Option TextWriter
text_writer_create alloc_ok opened = elim opened [
  | none ↦ none
  | some content ↦
      if alloc_ok
      then some (record {
        file = some content;
        timestamp_frequency = 0;
        start_timestamp = 0;
        start_time_sec = 0;
        start_time_nsec = 0;
        bytes_written = 0;
        pattern = none;
      })
      else none
]

unfoldable pub text_writer_set_timestamp_info : TextWriter → ℕ → ℕ → ℕ → ℕ → TextWriter
text_writer_set_timestamp_info w frequency start sec nsec = record w {
  timestamp_frequency = frequency;
  start_timestamp = start;
  start_time_sec = sec;
  start_time_nsec = nsec;
}

unfoldable pub text_writer_set_pattern : TextWriter → Option (List ℕ) → TextWriter
text_writer_set_pattern w pattern = record w { pattern = pattern }

unfoldable pub level_to_string : Libc → ℕ → List ℕ
unfolding unknown_name
level_to_string libc level =
    if level == 0
    then info_name
    else if level == 1
    then warn_name
    else if level == 2
    then error_name
    else if level == 3
    then debug_name
    else unknown_name libc level

-- "NO_TIMESTAMP"
abbrev pub no_timestamp : List ℕ
no_timestamp =
    b'N'
    ∷ (b'O'
        ∷ (b'_'
            ∷ (b'T' ∷ (b'I' ∷ (b'M' ∷ (b'E' ∷ (b'S' ∷ (b'T' ∷ (b'A' ∷ (b'M' ∷ (b'P' ∷ [])))))))))))

-- "[%t] [%l] [%f:%n] %m"
abbrev pub default_pattern : List ℕ
default_pattern =
    b'['
    ∷ (b'%'
        ∷ (b't'
            ∷ (b']'
                ∷ (b' '
                    ∷ (b'['
                        ∷ (b'%'
                            ∷ (b'l'
                                ∷ (b']'
                                    ∷ (b' '
                                        ∷ (b'['
                                            ∷ (b'%'
                                                ∷ (b'f'
                                                    ∷ (b':'
                                                        ∷ (b'%'
                                                            ∷ (b'n'
                                                            ∷ (b']'
                                                            ∷ (b' '
                                                            ∷ (b'%' ∷ (b'm' ∷ [])))))))))))))))))))

-- The pattern of the site, else of the writer, else the default.
abbrev pub pattern_or : Option (List ℕ) → List ℕ → List ℕ
pattern_or none other = other
pattern_or (some pattern) other = pattern

abbrev pub pattern_of : LogSite → TextWriter → List ℕ
pattern_of site w = pattern_or site.text_pattern (pattern_or w.pattern default_pattern)

-- "[UNKNOWN_LOG_ID_%u]\n"
unfoldable pub unknown_line : Libc → ℕ → List ℕ
unknown_line libc log_id =
    (b'['
      ∷ (b'U'
          ∷ (b'N'
              ∷ (b'K'
                  ∷ (b'N'
                      ∷ (b'O'
                          ∷ (b'W'
                              ∷ (b'N'
                                  ∷ (b'_'
                                      ∷ (b'L'
                                          ∷ (b'O'
                                              ∷ (b'G'
                                                  ∷ (b'_'
                                                      ∷ (b'I' ∷ (b'D' ∷ (b'_' ∷ []))))))))))))))))
    ++ (libc.print_u log_id ++ (b']' ∷ (10 ∷ [])))

-- `print_wall` is the local time of a second and nanosecond of the start and of the ticks since.
module _ (libc : Libc) (print_wall : ℕ → ℕ → ℕ → ℕ → List ℕ) where
  unfoldable pub format_timestamp : TextWriter → ℕ → List ℕ
  format_timestamp w timestamp =
      if w.timestamp_frequency == 0
      then no_timestamp
      else take 63 (
          print_wall w.start_time_sec w.start_time_nsec
            ((2 ^ 64 + timestamp - w.start_timestamp) % 2 ^ 64) w.timestamp_frequency)

  -- The line of an entry, without its end.
  unfoldable pub entry_line : TextWriter → LogSite → ℕ → List ℕ → Outcome (List ℕ)
  unfolding format_timestamp level_to_string
  entry_line w site timestamp arg_data = format_message libc site arg_data 8192 >>= λ message.
      format_entry_with_pattern libc (pattern_of site w) (format_timestamp w timestamp)
        (level_to_string libc site.log_level) site message (8192 + 256)

  -- `fprintf` that prints or fails.
  abbrev pub append_line : Bool → TextWriter → List ℕ → List ℕ → Bool × TextWriter
  append_line print_ok w content line =
      if print_ok
      then (
        true,
        record w {
          file = some (content ++ line);
          bytes_written = (w.bytes_written + length line) % 2 ^ 64;
        },
      )
      else (false, w)

  -- Whether the return value is 0, and the writer. The bytes of an unknown entry's line are not
  -- counted.
  unfoldable pub text_writer_write_entry :
      Bool → TextWriter → ℕ → ℕ → List ℕ → LogRegistry → Outcome (Bool × TextWriter)
  unfolding entry_line unknown_line
  text_writer_write_entry print_ok w log_id timestamp arg_data registry = elim w.file [
    | none ↦ done (false, w)
    | some content ↦ elim (log_registry_get registry log_id) [
      | none ↦ done (
        false,
        if print_ok then record w { file = some (content ++ unknown_line libc log_id) } else w,
      )
      | some site ↦ entry_line w site timestamp arg_data >>= λ line.
          done (append_line print_ok w content (line ++ (10 ∷ [])))
    ]
  ]

-- The writer after the file at a new path is opened or not; the second result is the closed file.
unfoldable pub text_writer_rotate :
    TextWriter → Option (List ℕ) → (Bool × TextWriter) × Option (List ℕ)
text_writer_rotate w opened = elim opened [
  | none ↦ ((false, record w { file = none }), w.file)
  | some content ↦ ((true, record w { file = some content }), w.file)
]

abbrev pub text_writer_get_bytes_written : TextWriter → ℕ
text_writer_get_bytes_written w = w.bytes_written
