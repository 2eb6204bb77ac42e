-- ===== src/Reader/File.antt =====
-- tools/decompressor.c: `decompress_file`, and the header checks of include/cnanolog_format.h. What
-- the two argument buffers hold behind the bytes of an entry is a parameter.
pub mod Header
pub mod Sizes
pub mod Logged
pub mod Lines
pub mod Session
use cnano_log.Base.{
  ℕ, zero, suc, ◌+◌, ◌%◌, List, [], ◌∷◌, ◌++◌, Option, none, some, Bool, true, false, not,
  if◌then◌else◌, ltb, leb, ◌==◌, length, get_elem?, drop, split_at,
}
use cnano_log.Base.Bytes.{le_value}
use cnano_log.Outcome.{Outcome, done, rejected, fault, ◌>>=◌}
use cnano_log.Decompress.{DictEntry, decompress_entry_args}
use cnano_log.Reader.{fread, field}
use cnano_log.Reader.Dictionary.{LevelEntry, load_dictionary}
use cnano_log.Reader.Context.{Libc, Context, format_timestamp}
use cnano_log.Reader.Levels.{parse_level_filters, should_include_level}
use cnano_log.Reader.Message.{format_log_message}
use cnano_log.Reader.Line.{Call, format_output}

-- `cnanolog_file_header_t`; its 8 reserved bytes are not read.
pub record FileHeader : Type 0 where
  pub magic : ℕ
  pub version_major : ℕ
  pub version_minor : ℕ
  pub timestamp_frequency : ℕ
  pub start_timestamp : ℕ
  pub start_time_sec : ℕ
  pub start_time_nsec : ℕ
  pub endianness : ℕ
  pub dictionary_offset : ℕ
  pub entry_count : ℕ
  pub flags : ℕ

unfoldable pub parse_header : List ℕ → FileHeader
parse_header bytes = record {
  magic = field bytes 0 4;
  version_major = field bytes 4 2;
  version_minor = field bytes 6 2;
  timestamp_frequency = field bytes 8 8;
  start_timestamp = field bytes 16 8;
  start_time_sec = field bytes 24 8;
  start_time_nsec = field bytes 32 4;
  endianness = field bytes 36 4;
  dictionary_offset = field bytes 40 8;
  entry_count = field bytes 48 4;
  flags = field bytes 52 4;
}

abbrev pub file_magic : ℕ
file_magic = 0x4e41_4e4f

-- Whether the return value is 0.
unfoldable pub validate_file_header : FileHeader → Bool
validate_file_header h = if h.magic == file_magic then h.version_major == 1 else false

-- The return values 0, 1 and -1.
pub data Endianness : Type 0 where
  same_endian swapped_endian bad_endian : Endianness

unfoldable pub check_endianness : ℕ → Endianness
check_endianness marker =
    if marker == 0x0102_0304
    then same_endian
    else if marker == 0x0403_0201
    then swapped_endian
    else bad_endian

-- The context, once the dictionaries are loaded.
abbrev pub file_context : FileHeader → List DictEntry → List LevelEntry → Context
file_context h entries levels = record {
  entries = entries;
  custom_levels = levels;
  timestamp_frequency = h.timestamp_frequency;
  start_timestamp = h.start_timestamp;
  start_time_sec = h.start_time_sec;
  start_time_nsec = h.start_time_nsec;
  has_timestamps = not (h.flags % 2 == 0);
}

-- An entry that was read, and the file position behind it.
pub data EntryRead : Type 0 where
  end_of_file : EntryRead
  bad_entry : EntryRead
  entry : ℕ → DictEntry → List ℕ → List ℕ → EntryRead

abbrev pub read_result : Outcome (ℕ × DictEntry × List ℕ × List ℕ) → EntryRead
read_result (done (timestamp, dict, arg_buffer, fp)) = entry timestamp dict arg_buffer fp
read_result _ = bad_entry

unfoldable pub read_timestamp : Bool → List ℕ → Outcome (ℕ × List ℕ)
read_timestamp true fp = fread 8 fp >>= λ r. done (le_value (r.0), r.1)
read_timestamp false fp = done (0, fp)

-- The reads at the start of a round; `log_id` is checked before the argument data are read.
unfoldable pub read_entry : Context → List ℕ → EntryRead
unfolding read_timestamp
read_entry ctx fp = elim (split_at 4 fp) [
  | none ↦ end_of_file
  | some r ↦ read_result (
      read_timestamp ctx.has_timestamps (r.1) >>= λ t. fread 2 (t.1) >>= λ l.
      elim (get_elem? ctx.entries (le_value (r.0))) [
        | none ↦ rejected
        | some dict ↦ fread (le_value (l.0)) (l.1) >>= λ d. done (t.0, dict, d.0, d.1)
      ])
]

abbrev pub max_entry_size : ℕ
max_entry_size = 65535

abbrev pub no_timestamp : List ℕ
no_timestamp =
    b'N'
    ∷ (b'O'
        ∷ (b'-'
            ∷ (b'T' ∷ (b'I' ∷ (b'M' ∷ (b'E' ∷ (b'S' ∷ (b'T' ∷ (b'A' ∷ (b'M' ∷ (b'P' ∷ [])))))))))))

-- `timestamp_str`
unfoldable pub timestamp_text : Libc → Context → ℕ → List ℕ
timestamp_text libc ctx timestamp =
    if ctx.has_timestamps then format_timestamp libc ctx timestamp else no_timestamp

-- The bytes that the message is formatted from: the restored ones, or those of the file when there
-- are none or restoring them fails.
abbrev pub restored_or : List ℕ → List ℕ → Outcome (List ℕ) → Outcome (List ℕ)
restored_or arg_memory stale fault = fault
restored_or arg_memory stale rejected = done arg_memory
restored_or arg_memory stale (done []) = done arg_memory
restored_or arg_memory stale (done (b ∷ bs)) = done ((b ∷ bs) ++ stale)

unfoldable pub data_to_format : DictEntry → List ℕ → List ℕ → List ℕ → Outcome (List ℕ)
data_to_format dict arg_buffer stale_args stale_values =
    if length arg_buffer == 0
    then done (arg_buffer ++ stale_args)
    else restored_or (arg_buffer ++ stale_args) stale_values
        (decompress_entry_args (arg_buffer ++ stale_args) (length arg_buffer) max_entry_size dict)

module _ (libc : Libc) (stale_args stale_values : ℕ → List ℕ) (ctx : Context)
    (output_format filter_levels : List ℕ) where
  -- The lines that an entry prints: none or one.
  unfoldable pub print_entry : ℕ → ℕ → DictEntry → List ℕ → Outcome (List (List ℕ))
  unfolding data_to_format timestamp_text
  print_entry n timestamp dict arg_buffer =
      if not (should_include_level dict.log_level filter_levels)
      then done []
      else (data_to_format dict arg_buffer (stale_args n) (stale_values n) >>= λ bytes.
          format_log_message libc dict bytes 2048 >>= λ message.
          format_output libc output_format
            (record {
              timestamp_str = timestamp_text libc ctx timestamp;
              timestamp_raw = timestamp;
              ctx = ctx;
              dict = dict;
              message = message;
            })
            4096
          >>= λ line. done (line ∷ []))

  -- The loop, with `todo` entries left of the header's count, at the entry number `n`: the lines, and
  -- whether the return value is 0.
  unfoldable pub decompress_entries : ℕ → ℕ → List ℕ → Outcome (List (List ℕ) × Bool)
  unfolding print_entry
  decompress_entries zero n fp = done ([], true)
  decompress_entries (suc todo) n fp = elim (read_entry ctx fp) [
    | end_of_file ↦ done ([], true)
    | bad_entry ↦ done ([], false)
    | entry timestamp dict arg_buffer fp' ↦ print_entry n timestamp dict arg_buffer >>= λ lines.
        decompress_entries todo (n + 1) fp' >>= λ r. done (lines ++ (r.0), r.1)
  ]

abbrev pub filters_of : List LevelEntry → Option (List ℕ) → List ℕ
filters_of levels none = []
filters_of levels (some s) = parse_level_filters levels 64 s

module _ (libc : Libc) (alloc_ok : ℕ → Bool) (stale_args stale_values : ℕ → List ℕ) where
  -- Behind the checks of the header.
  unfoldable pub decompress_body :
      FileHeader → List ℕ → List ℕ → Option (List ℕ) → Outcome (List (List ℕ) × Bool)
  decompress_body header file output_format level_filter =
      elim (load_dictionary alloc_ok file header.dictionary_offset) [
        | fault ↦ fault
        | rejected ↦ done ([], false)
        | done d ↦
            decompress_entries libc stale_args stale_values (file_context header (d.0) (d.1))
              output_format (filters_of (d.1) level_filter) header.entry_count 0 (drop 64 file)
      ]

  -- Behind the read of the header: the checks.
  unfoldable pub decompress_checked :
      FileHeader → List ℕ → List ℕ → Option (List ℕ) → Outcome (List (List ℕ) × Bool)
  unfolding decompress_body
  decompress_checked header file output_format level_filter =
      if not (validate_file_header header)
      then done ([], false)
      else elim (check_endianness header.endianness) [
        | bad_endian ↦ done ([], false)
        | _ ↦
            if header.dictionary_offset == 0
            then done ([], false)
            else decompress_body header file output_format level_filter
      ]

  unfoldable pub decompress_file :
      List ℕ → List ℕ → Option (List ℕ) → Outcome (List (List ℕ) × Bool)
  unfolding decompress_checked
  decompress_file file output_format level_filter = elim (split_at 64 file) [
    | none ↦ done ([], false)
    | some r ↦ decompress_checked (parse_header (r.0)) file output_format level_filter
  ]
