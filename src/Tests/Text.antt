-- ===== src/Tests/Text.antt =====
-- The text formatter and the custom levels on concrete inputs.
use cnano_log.Base.{
  ℕ, ◌+◌, ◌<◌, ◌≡◌, refl, List, [], ◌∷◌, ◌++◌, false, arith, length, replicate, map,
}
use cnano_log.Outcome.{done}
use cnano_log.Format.{ArgType}
use cnano_log.Args
use cnano_log.Args.{Arg, scalar, text, encode_args, kind_type, width, types}
use cnano_log.Registry.{LogSite, zero_site}
use cnano_log.Reader.LoadLaws.{loaded_level}
use cnano_log.Reader.Context.{Libc, c_string}
use cnano_log.Reader.Levels.{level_to_string}
use cnano_log.Levels.{CustomLevels, register_level, level_used}
use cnano_log.Levels.Laws.{
  IsValid, AreDistinct, register_level-IsValid, level_to_string-register_level,
}
use cnano_log.TextFormatter.Message.{format_message}
use cnano_log.TextFormatter.Message.Bounds.{length-format_message}

-- Each number is printed as one character.
abbrev libc : Libc
libc = record {
  print_u = λ n. (48 + n) ∷ [];
  print_d = λ n. (48 + n) ∷ [];
  print_lld = λ n. (48 + n) ∷ [];
  print_f = λ n. b'f' ∷ [];
  print_p = λ n. b'p' ∷ [];
  print_seconds = λ n freq. b's' ∷ [];
  print_time = λ sec n freq. b't' ∷ [];
}

-- `LOG_INFO("%ld: %s", 5, "abc")` with an output of six bytes
abbrev site : LogSite
site = record zero_site {
  format = b'%' ∷ (b'l' ∷ (b'd' ∷ (b':' ∷ (b' ' ∷ (b'%' ∷ (b's' ∷ []))))));
  num_args = 2;
  arg_types = ArgType.int64 ∷ (ArgType.string ∷ replicate 48 ArgType.arg_none);
}

abbrev values : List Arg
values = scalar Args.int64 5 ∷ (text (b'a' ∷ (b'b' ∷ (b'c' ∷ []))) ∷ [])

length-format_message_example :
    (message : List ℕ) × ((format_message libc site (encode_args values ++ []) 6 ≡ done message)
      × (length message < 6))
unfolding kind_type width
length-format_message_example =
    length-format_message libc site values [] 6 refl (omega arith, (omega arith, tt)) (omega arith)

abbrev empty : CustomLevels
empty = record { levels = []; is_initialized = false }

empty-IsValid : IsValid empty
unfolding AreDistinct
empty-IsValid = record { few = omega arith; custom = tt; distinct = tt }

abbrev audit : List ℕ
audit = b'A' ∷ (b'U' ∷ [])

abbrev registered : CustomLevels
registered = record { levels = record { level = 7; name = audit } ∷ []; is_initialized = false }

register_level-IsValid_example : IsValid registered
unfolding register_level level_used c_string
register_level-IsValid_example =
    register_level-IsValid empty audit 7 registered empty-IsValid (omega arith) refl

level_to_string-register_level_example :
    level_to_string libc (map loaded_level registered.levels) 7 ≡ audit
unfolding register_level level_used c_string
level_to_string-register_level_example =
    level_to_string-register_level libc empty audit 7 registered refl
