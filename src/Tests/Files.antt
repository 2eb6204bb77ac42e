-- ===== src/Tests/Files.antt =====
-- A log file with two entries, one log site and one custom level.
use cnano_log.Base.{◌+◌, refl, List, [], ◌∷◌, ◌++◌, none, true, arith, replicate}
use cnano_log.Base.Bytes.{le_bytes}
use cnano_log.Registry.{LogSite, zero_site}
use cnano_log.Writer.{Writer, file_header, buffer_write}
use cnano_log.Writer.Content.{IsValid, Wrote}
use cnano_log.Writer.Append.{buffer_write-Wrote}
use cnano_log.Writer.Dictionary.{CustomLevel, write_dictionary}
use cnano_log.Writer.Pieces.{dictionary_bytes, write_dictionary-Wrote}
use cnano_log.Writer.Rotate.{Rotates, binwriter_rotate, binwriter_rotate-Rotates}
use cnano_log.Writer.Session.{Entry}

abbrev sites : List LogSite
sites =
    record zero_site { filename = 109 ∷ (46 ∷ (99 ∷ [])); format = 104 ∷ []; line_number = 10 } ∷ []

abbrev levels : List CustomLevel
levels = record { level = 10; name = 65 ∷ (66 ∷ []) } ∷ []

abbrev entries : List Entry
entries =
    record { log_id = 0; timestamp = 1000; arg_data = 1 ∷ (2 ∷ []) }
    ∷ (record { log_id = 0; timestamp = 1001; arg_data = [] } ∷ [])

-- A writer with five buffered bytes in its second buffer.
abbrev busy : Writer
busy = record {
  buffer_a = [];
  buffer_b = 1 ∷ (2 ∷ (3 ∷ (4 ∷ (5 ∷ []))));
  active_buffer_idx = 1;
  buffer_used = 5;
  buffer_size = 65536;
  outstanding = none;
  entries_written = 7;
  bytes_written = 2;
  file = 8 ∷ (9 ∷ []);
  fd_offset = 2;
  calls = replicate 12 true;
}

busy-IsValid : IsValid busy
busy-IsValid = record { index = omega arith; used = omega arith; aio = refl; fits = omega arith }

-- The buffers are so small that two more bytes flush the five.
abbrev small : Writer
small = record busy { buffer_size = 6 }

small-IsValid : IsValid small
small-IsValid = record { index = omega arith; used = omega arith; aio = refl; fits = omega arith }

buffer_write-Wrote_example : Wrote small (6 ∷ (7 ∷ [])) (buffer_write small (6 ∷ (7 ∷ [])))
buffer_write-Wrote_example = buffer_write-Wrote small (6 ∷ (7 ∷ [])) small-IsValid (omega arith)

write_dictionary-Wrote_example :
    Wrote busy (dictionary_bytes sites levels) (write_dictionary busy sites levels)
write_dictionary-Wrote_example = write_dictionary-Wrote sites levels busy busy-IsValid (omega arith)

-- A writer whose file holds a header, and whose first buffer holds two more bytes.
abbrev opened : Writer
opened = record busy {
  buffer_a = 1 ∷ (2 ∷ []);
  buffer_b = [];
  active_buffer_idx = 0;
  buffer_used = 2;
  file = file_header 1 2 3 4 0 0;
  bytes_written = 64;
  fd_offset = 64;
}

opened-IsValid : IsValid opened
unfolding file_header le_bytes
opened-IsValid = record { index = omega arith; used = omega arith; aio = refl; fits = omega arith }

binwriter_rotate-Rotates_example :
    Rotates opened
      (file_header 1 2 3 4 0 0 ++ ((1 ∷ (2 ∷ [])) ++ dictionary_bytes sites levels))
      (file_header 1 2 3 4 (64 + 2) 7 ++ ((1 ∷ (2 ∷ [])) ++ dictionary_bytes sites levels))
      (file_header 5 6 7 8 0 0)
      (binwriter_rotate opened sites levels 5 6 7 8)
binwriter_rotate-Rotates_example =
    binwriter_rotate-Rotates opened sites levels 1 2 3 4 5 6 7 8 (1 ∷ (2 ∷ [])) opened-IsValid
      (omega arith) refl
