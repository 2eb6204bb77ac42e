-- ===== src/Reader/Context.antt =====
-- tools/decompressor.c: what the functions that print share. The C library's number and time
-- formatting is a parameter.
use cnano_log.Base.{ℕ, ◌+◌, ◌-◌, ◌%◌, ◌^◌, List, [], ◌∷◌, Bool, if◌then◌else◌, ◌==◌, take}
use cnano_log.Decompress.{DictEntry}
use cnano_log.Reader.Dictionary.{LevelEntry}

-- `snprintf` of one value: `%u` and `%llu`, `%d` of a 32-bit pattern, `%lld` of a 64-bit one, `%f` of
-- a `double`'s bits, `%p`; `%.9f` of a quotient of ticks and frequency; and the wall-clock time that
-- lies so many ticks of a frequency behind a time in seconds.
pub record Libc : Type 0 where
  pub print_u : ℕ → List ℕ
  pub print_d : ℕ → List ℕ
  pub print_lld : ℕ → List ℕ
  pub print_f : ℕ → List ℕ
  pub print_p : ℕ → List ℕ
  pub print_seconds : ℕ → ℕ → List ℕ
  pub print_time : ℕ → ℕ → ℕ → List ℕ

-- `decompressor_ctx_t`
pub record Context : Type 0 where
  pub entries : List DictEntry
  pub custom_levels : List LevelEntry
  pub timestamp_frequency : ℕ
  pub start_timestamp : ℕ
  pub start_time_sec : ℕ
  pub start_time_nsec : ℕ
  pub has_timestamps : Bool

-- What `%s` prints of a character array: the bytes before the first terminator.
unfoldable pub c_string : List ℕ → List ℕ
c_string [] = []
c_string (c ∷ s) = if c == 0 then [] else c ∷ c_string s

-- `timestamp - ctx->start_timestamp` on `uint64_t`.
abbrev pub elapsed_ticks : Context → ℕ → ℕ
elapsed_ticks ctx timestamp = (2 ^ 64 + timestamp - ctx.start_timestamp) % 2 ^ 64

-- The time that is printed, cut to the 64 bytes of its buffer.
unfoldable pub format_timestamp : Libc → Context → ℕ → List ℕ
format_timestamp libc ctx timestamp =
    take 63
      (libc.print_time ctx.start_time_sec (elapsed_ticks ctx timestamp) ctx.timestamp_frequency)
