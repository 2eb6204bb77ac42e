-- ===== src/Tests/Reading.antt =====
-- Reading files, and the lines they print, on concrete inputs.
use cnano_log.Base.{
  ℕ, zero, suc, ◌+◌, ◌/◌, ◌%◌, ◌≡◌, refl, List, [], ◌∷◌, ◌++◌, none, true, length, length-append,
  All, arith, if◌then◌else◌, ltb, replicate,
}
use cnano_log.Base.Bytes.{le_bytes}
use cnano_log.Outcome.{done, fault}
use cnano_log.Format.{ArgType, of_code, code}
use cnano_log.Args
use cnano_log.Args.{Arg, scalar, text, encode_args, kind_type, width}
use cnano_log.Registry.{LogSite, zero_site}
use cnano_log.Packer.{nibble_bytes, set_nibble, num_bytes_of, sign_extend}
use cnano_log.Packer.RoundTrip.{magnitude}
use cnano_log.Compressor.{sign_nibble}
use cnano_log.Packer.Nibbles.{set_nibbles}
use cnano_log.Compressor.Spec.{compressed, nibble_array, nibble_of, packed_size, packed_value}
use cnano_log.Writer.{Writer, ok, entry_header}
use cnano_log.Writer.Dictionary.{CustomLevel, type_codes}
use cnano_log.Writer.Pieces.{dictionary_bytes}
use cnano_log.Writer.Session.{session}
use cnano_log.Reader.Dictionary.{load_dictionary}
use cnano_log.Reader.LoadLaws.{IsSite, IsLevel, loaded_site, loaded_level}
use cnano_log.Reader.LoadDictionary.{load_dictionary-dictionary_bytes}
use cnano_log.Reader.Context.{Libc, Context, c_string, format_timestamp}
use cnano_log.Reader.Levels.{level_to_string, warn_name}
use cnano_log.Reader.Message.{format_log_message, find_char}
use cnano_log.Reader.Message.Pieces.{
  Piece, plain, conversion, IsPiece, piece_chars, format_chars, arg_text, render,
}
use cnano_log.Reader.Message.Laws.{format_log_message-render}
use cnano_log.Reader.Line.{Call, format_output}
use cnano_log.Reader.Line.Fields
use cnano_log.Reader.Line.Fields.{Field, field_chars, field_text, IsField, output_format, line_text}
use cnano_log.Reader.Line.Laws.{format_output-line_text, format_output-overruns}
use cnano_log.Reader.File.{decompress_file}
use cnano_log.Reader.File.Logged.{Logged, IsLogged, logged_entry, logged_lines}
use cnano_log.Reader.File.Session.{Clock, dict_offset, session_context, decompress_file-session}

-- Decimal digits, enough for every number below.
abbrev digits : ℕ → ℕ → List ℕ
digits zero n = []
digits (suc k) n =
    let high = digits k (n / 10) in if ltb n 10 then (48 + n) ∷ [] else high ++ ((48 + n % 10) ∷ [])

abbrev pub libc : Libc
libc = record {
  print_u = digits 20;
  print_d = digits 10;
  print_lld = digits 20;
  print_f = digits 20;
  print_p = digits 20;
  print_seconds = λ ticks freq. digits 20 (ticks / freq);
  print_time = λ sec ticks freq. digits 20 (sec + ticks / freq);
}

-- `LOG_WARN("x=%3d", 5)`
abbrev pub pieces : List Piece
pieces = plain b'x' ∷ (plain b'=' ∷ (conversion (b'3' ∷ []) b'd' ∷ []))

abbrev pub site : LogSite
site = record zero_site {
  log_level = 1;
  filename = b'a' ∷ (b'.' ∷ (b'c' ∷ []));
  format = b'x' ∷ (b'=' ∷ (b'%' ∷ (b'3' ∷ (b'd' ∷ []))));
  line_number = 12;
  num_args = 1;
  arg_types = ArgType.int32 ∷ replicate 49 ArgType.arg_none;
}

abbrev pub level : CustomLevel
level = record { level = 4; name = b'T' ∷ [] }

abbrev pub clock : Clock
clock = record { freq = 10; start = 100; sec = 7; nsec = 0 }

abbrev pub values : List Arg
values = scalar Args.int32 5 ∷ []

abbrev pub call : Logged
call = record { site = site; pieces = pieces; timestamp = 130; args = values }

abbrev pub fields : List Field
fields =
    Fields.timestamp
    ∷ (Fields.plain b' ' ∷ (Fields.level ∷ (Fields.plain b' ' ∷ (Fields.message ∷ []))))

pub site-IsSite : IsSite site
site-IsSite = record {
  log_id_fits = omega arith;
  log_level_fits = omega arith;
  num_args_fits = omega arith;
  line_number_fits = omega arith;
  filename_fits = omega arith;
  format_fits = omega arith;
}

pub level-IsLevel : IsLevel level
level-IsLevel = record { level_fits = omega arith; name_fits = omega arith }

load_dictionary-dictionary_bytes_example :
    load_dictionary
      (λ n. true)
      ((1 ∷ (2 ∷ [])) ++ (dictionary_bytes (site ∷ []) (level ∷ []) ++ []))
      2
    ≡ done (loaded_site site ∷ [], loaded_level level ∷ [])
load_dictionary-dictionary_bytes_example =
    load_dictionary-dictionary_bytes (λ n. true) (λ n. refl) (1 ∷ (2 ∷ [])) [] (site ∷ [])
      (level ∷ []) (site-IsSite, tt) (level-IsLevel, tt) (omega arith) (omega arith) (omega arith)

pieces-IsPiece : All IsPiece pieces
unfolding IsPiece find_char
pieces-IsPiece = (
  (λ e. omega arith, λ e. omega arith),
  (
    (λ e. omega arith, λ e. omega arith),
    (((refl, tt), (refl, (λ e. omega arith, λ e. omega arith))), tt),
  ),
)

format_log_message-render_example :
    format_log_message libc (loaded_site site) (encode_args values ++ (9 ∷ [])) 2048
    ≡ done (b'x' ∷ (b'=' ∷ (b'5' ∷ [])))
unfolding render arg_text format_chars piece_chars c_string kind_type type_codes of_code code width
format_log_message-render_example =
    format_log_message-render libc (loaded_site site) pieces values (9 ∷ []) 2048 refl refl
      pieces-IsPiece (omega arith, tt) (omega arith)

abbrev pub context : Context
context = session_context clock (call ∷ []) (site ∷ []) (level ∷ [])

abbrev printed : Call
printed = record {
  timestamp_str = b'1' ∷ (b'0' ∷ []);
  timestamp_raw = 130;
  ctx = context;
  dict = loaded_site site;
  message = b'x' ∷ (b'=' ∷ (b'5' ∷ []));
}

pub fields-IsField : All IsField fields
unfolding IsField
fields-IsField = (
  tt,
  ((λ e. omega arith, λ e. omega arith), (tt, ((λ e. omega arith, λ e. omega arith), (tt, tt)))),
)

-- `10 WARN x=5`
format_output-line_text_example :
    format_output libc (output_format fields) printed 4096
    ≡ done (b'1' ∷ (b'0' ∷ (b' ' ∷ (warn_name ++ (b' ' ∷ (b'x' ∷ (b'=' ∷ (b'5' ∷ []))))))))
unfolding line_text field_text c_string level_to_string
format_output-line_text_example =
    format_output-line_text libc printed fields 4096 fields-IsField (omega arith)

format_output-overruns_example :
    format_output libc (output_format (Fields.timestamp ∷ (Fields.message ∷ []))) printed 5 ≡ fault
unfolding line_text field_text c_string level_to_string IsField
format_output-overruns_example =
    format_output-overruns libc printed (Fields.timestamp ∷ []) Fields.message [] 5 (tt, (tt, tt))
      (omega arith) (omega arith)

length-data : length (compressed values) ≡ 2
unfolding compressed nibble_array nibble_of packed_size packed_value sign_nibble num_bytes_of
    magnitude sign_extend set_nibbles set_nibble nibble_bytes le_bytes
length-data = refl

pub dict_offset_lem : dict_offset (call ∷ []) ≡ 80
unfolding entry_header le_bytes
dict_offset_lem = omega (arith, length-data, length-append (compressed values) [])

pub call-IsLogged : IsLogged libc context fields (site ∷ []) call
unfolding render arg_text format_chars piece_chars c_string kind_type type_codes of_code code width
    line_text field_text level_to_string format_timestamp le_bytes
call-IsLogged = record {
  registered = refl;
  id_fits = omega arith;
  timestamp_fits = omega arith;
  typed = refl;
  numbered = refl;
  few = omega arith;
  formatted = refl;
  pieces_valid = pieces-IsPiece;
  args_valid = (omega arith, tt);
  narrow = (tt, tt);
  data_fit = omega arith;
  compressed_fit = omega (arith, length-data);
  message_fits = omega arith;
  line_fits = omega arith;
}

decompress_file-session_example :
    (w : Writer) × ((session 65536 [] 10 100 7 0 (logged_entry call ∷ []) (site ∷ []) (level ∷ [])
        ≡ ok w)
      × (decompress_file libc (λ n. true) (λ n. []) (λ n. []) w.file (output_format fields) none
          ≡ done (logged_lines libc context fields [] (call ∷ []), true)))
decompress_file-session_example =
    decompress_file-session libc (λ n. true) (λ n. refl) (λ n. []) (λ n. []) 65536 clock (call ∷ [])
      (site ∷ []) (level ∷ []) fields none (omega arith)
      (record {
        freq_fits = omega arith;
        start_fits = omega arith;
        sec_fits = omega arith;
        nsec_fits = omega arith;
        offset_fits = omega (arith, dict_offset_lem);
        count_fits = omega arith;
      })
      (site-IsSite, tt) (level-IsLevel, tt) (omega arith) (omega arith)
      (omega (arith, dict_offset_lem)) fields-IsField (call-IsLogged, tt)
