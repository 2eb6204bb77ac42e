-- ===== src/Reader/File/Logged.antt =====
-- tools/decompressor.c: what a file with the calls of a program prints.
use cnano_log.Base.{
  ℕ, ◌^◌, ◌<◌, ◌≤◌, ◌≡◌, List, [], ◌∷◌, ◌++◌, some, if◌then◌else◌, length, get_elem?, All,
}
use cnano_log.Args.{Arg, encode_args, IsArg, types}
use cnano_log.Registry
use cnano_log.Registry.{LogSite}
use cnano_log.Format.{max_args}
use cnano_log.Compressor.Spec.{compressed}
use cnano_log.Decompress.ReadInts.{IsNarrow}
use cnano_log.Writer.Session.{Entry}
use cnano_log.Reader.LoadLaws.{loaded_site}
use cnano_log.Reader.Context.{Libc, Context, c_string, format_timestamp}
use cnano_log.Reader.Levels.{should_include_level}
use cnano_log.Reader.Message.{max_text}
use cnano_log.Reader.Message.Pieces.{Piece, IsPiece, format_chars, render}
use cnano_log.Reader.Line.{Call}
use cnano_log.Reader.Line.Fields.{Field, line_text}

-- A call of the program: its site, the meaning of the site's format string, and the values.
pub record Logged : Type 0 where
  pub site : LogSite
  pub pieces : List Piece
  pub timestamp : ℕ
  pub args : List Arg

-- The entry that the consumer writes for it.
abbrev pub logged_entry : Logged → Entry
logged_entry c = record {
  log_id = (c.site).log_id;
  timestamp = c.timestamp;
  arg_data = compressed c.args;
}

-- The message, and the line for it.
abbrev pub logged_message : Libc → Logged → List ℕ
logged_message libc c = c_string (render libc c.pieces c.args)

abbrev pub logged_call : Libc → Context → Logged → Call
logged_call libc ctx c = record {
  timestamp_str = format_timestamp libc ctx c.timestamp;
  timestamp_raw = c.timestamp;
  ctx = ctx;
  dict = loaded_site c.site;
  message = logged_message libc c;
}

abbrev pub logged_line : Libc → Context → List Field → Logged → List ℕ
logged_line libc ctx fields c = c_string (line_text libc (logged_call libc ctx c) fields)

-- The line is printed unless the filter leaves out the level.
unfoldable pub logged_lines : Libc → Context → List Field → List ℕ → List Logged → List (List ℕ)
logged_lines libc ctx fields filter [] = []
logged_lines libc ctx fields filter (c ∷ cs) =
    (if should_include_level ((c.site).log_level) filter
      then logged_line libc ctx fields c ∷ []
      else [])
    ++ logged_lines libc ctx fields filter cs

-- The call's site is in the registry under its number, the values have the site's types and fit
-- their fields, and the message and the line have room.
pub record IsLogged (libc : Libc) (ctx : Context) (fields : List Field) (sites : List LogSite)
    (c : Logged) : Type 0 where
  pub registered : get_elem? sites ((c.site).log_id) ≡ some (c.site)
  pub id_fits : (c.site).log_id < 2 ^ 32
  pub timestamp_fits : c.timestamp < 2 ^ 64
  pub typed : Registry.used_types c.site ≡ types c.args
  pub numbered : (c.site).num_args ≡ length c.args
  pub few : length c.args ≤ max_args
  pub formatted : (c.site).format ≡ format_chars c.pieces
  pub pieces_valid : All IsPiece c.pieces
  pub args_valid : All IsArg c.args
  pub narrow : All IsNarrow c.args
  pub data_fit : length (encode_args c.args) < 2 ^ 16
  pub compressed_fit : length (compressed c.args) < 2 ^ 16
  pub message_fits : length (render libc c.pieces c.args) < max_text
  pub line_fits : length (line_text libc (logged_call libc ctx c) fields) < 4095
