-- ===== src/Reader/File/Header.antt =====
-- tools/decompressor.c against src/binary_writer.c: the file header is read as it was written.
use cnano_log.Base.{ℕ, ◌^◌, ◌<◌, ◌≡◌, refl, length}
use cnano_log.Base.Bytes.{le_bytes, le_value, le_value-le_bytes}
use cnano_log.Writer.{file_header}
use cnano_log.Reader.{field}
use cnano_log.Reader.File.{FileHeader, parse_header, file_magic}

pub record HeaderFits (freq start sec nsec offset count : ℕ) : Type 0 where
  pub freq_fits : freq < 2 ^ 64
  pub start_fits : start < 2 ^ 64
  pub sec_fits : sec < 2 ^ 64
  pub nsec_fits : nsec < 2 ^ 32
  pub offset_fits : offset < 2 ^ 64
  pub count_fits : count < 2 ^ 32

abbrev pub written_header : ℕ → ℕ → ℕ → ℕ → ℕ → ℕ → FileHeader
written_header freq start sec nsec offset count = record {
  magic = file_magic;
  version_major = 1;
  version_minor = 0;
  timestamp_frequency = freq;
  start_timestamp = start;
  start_time_sec = sec;
  start_time_nsec = nsec;
  endianness = 0x0102_0304;
  dictionary_offset = offset;
  entry_count = count;
  flags = 1;
}

module _ (freq start sec nsec offset count : ℕ) where
  pub length-file_header : length (file_header freq start sec nsec offset count) ≡ 64
  unfolding file_header le_bytes
  length-file_header = refl

  pub parse_header-file_header :
      HeaderFits freq start sec nsec offset count
      → parse_header (file_header freq start sec nsec offset count)
        ≡ written_header freq start sec nsec offset count
  unfolding parse_header file_header field le_bytes le_value
  parse_header-file_header h = rw (
    le_value-le_bytes 8 freq h.freq_fits,
    le_value-le_bytes 8 start h.start_fits,
    le_value-le_bytes 8 sec h.sec_fits,
    le_value-le_bytes 4 nsec h.nsec_fits,
    le_value-le_bytes 8 offset h.offset_fits,
    le_value-le_bytes 4 count h.count_fits,
  )
