-- ===== src/Writer/Dictionary.antt =====
-- src/binary_writer.c: the dictionaries at the end of a file, and closing it.
-- A C string is the list of its bytes; a custom level's name is one too.
use cnano_log.Base.{
  ℕ, ◌+◌, ◌-◌, ◌^◌, ◌%◌, List, [], ◌∷◌, ◌++◌, if◌then◌else◌, ◌||◌, ltb, take, drop, length, map,
  replicate,
}
use cnano_log.Base.Bytes.{le_bytes}
use cnano_log.Format.{code, max_args}
use cnano_log.Registry.{LogSite, used_types}
use cnano_log.Writer.{
  Writer, Status, ok, failed, ◌>>=◌, buffer_write, binwriter_flush, wait_for_aio, next_call,
  after_call, file_write,
}

-- `custom_level_entry_t`
pub record CustomLevel : Type 0 where
  pub level : ℕ
  pub name : List ℕ

-- `(uint16_t)strlen(...)` and `(uint8_t)strlen(...)`, and what is then written of the string.
abbrev pub length16 : List ℕ → ℕ
length16 s = length s % 2 ^ 16

abbrev pub length8 : List ℕ → ℕ
length8 s = length s % 2 ^ 8

-- The array of type codes: those of the arguments, at most 50, and zeros.
unfoldable pub type_codes : LogSite → List ℕ
type_codes site =
    let used = take max_args (used_types site) in
    map (λ t. code t % 256) used ++ replicate (max_args - length used) 0

-- `cnanolog_dict_entry_t`, packed.
unfoldable pub dict_entry : LogSite → List ℕ
unfolding type_codes
dict_entry site =
    le_bytes 4 site.log_id
    ++ (le_bytes 1 site.log_level
        ++ (le_bytes 1 site.num_args
            ++ (le_bytes 2 (length16 site.filename)
                ++ (le_bytes 2 (length16 site.format)
                    ++ (le_bytes 4 site.line_number ++ type_codes site)))))

unfoldable pub write_dict_entry : Writer → LogSite → Status
write_dict_entry w site = buffer_write w (dict_entry site) >>= λ w1.
    buffer_write w1 (take (length16 site.filename) site.filename) >>= λ w2.
    buffer_write w2 (take (length16 site.format) site.format)

unfoldable pub write_dict_entries : Writer → List LogSite → Status
write_dict_entries w [] = ok w
write_dict_entries w (s ∷ ss) = write_dict_entry w s >>= λ w'. write_dict_entries w' ss

-- The sums of `total_size` are `uint32_t`.
unfoldable pub level_dict_size : List CustomLevel → ℕ
level_dict_size [] = 16
level_dict_size (l ∷ ls) = (level_dict_size ls + 4 + length l.name) % 2 ^ 32

unfoldable pub dict_size : List LogSite → ℕ
dict_size [] = 16
dict_size (s ∷ ss) = (dict_size ss + 64 + length s.filename + length s.format) % 2 ^ 32

-- The two dictionary headers have the same layout.
unfoldable pub dict_header : ℕ → ℕ → ℕ → List ℕ
dict_header magic number total_size =
    le_bytes 4 magic ++ (le_bytes 4 number ++ (le_bytes 4 total_size ++ le_bytes 4 0))

abbrev pub level_dict_magic : ℕ
level_dict_magic = 0x4c56_4c53

abbrev pub dict_magic : ℕ
dict_magic = 0x4449_4354

unfoldable pub level_entry : CustomLevel → List ℕ
level_entry l =
    le_bytes 1 l.level ++ (le_bytes 1 (length8 l.name) ++ (le_bytes 1 0 ++ le_bytes 1 0))

unfoldable pub write_levels : Writer → List CustomLevel → Status
write_levels w [] = ok w
write_levels w (l ∷ ls) = buffer_write w (level_entry l) >>= λ w1.
    buffer_write w1 (take (length8 l.name) l.name) >>= λ w2. write_levels w2 ls

-- Nothing is written where there is no custom level.
unfoldable pub write_level_dict : Writer → List CustomLevel → Status
write_level_dict w [] = ok w
write_level_dict w (l ∷ ls) =
    buffer_write w (dict_header level_dict_magic (length (l ∷ ls)) (level_dict_size (l ∷ ls)))
    >>= λ w'. write_levels w' (l ∷ ls)

unfoldable pub write_dictionary : Writer → List LogSite → List CustomLevel → Status
write_dictionary w sites levels = write_level_dict w levels >>= λ w1.
    buffer_write w1 (dict_header dict_magic (length sites) (dict_size sites)) >>= λ w2.
    write_dict_entries w2 sites

-- The header of the file with its dictionary offset and entry count replaced.
unfoldable pub updated_header : List ℕ → ℕ → ℕ → List ℕ
updated_header header dict_offset entry_count =
    take 40 header ++ (le_bytes 8 dict_offset ++ (le_bytes 4 entry_count ++ drop 52 header))

-- A call whose result is ignored.
unfoldable pub skip_call : Writer → Writer
skip_call w = record w { calls = after_call w }

-- `fflush`, `fsync`, `close` and `fclose`, whose results are ignored. The header stands in the
-- stream's buffer before: `fflush` stores it in the file and, where it fails, `fclose` tries again.
unfoldable pub close_file : Writer → List ℕ → Writer
unfolding skip_call
close_file w header =
    let closing = skip_call (skip_call (skip_call w)) in
    record w {
      file = if next_call w || next_call closing then file_write w.file 0 header else w.file;
      calls = after_call closing;
    }

-- The seeks, the read and the write of the header to the stream, as one call: a file shorter than
-- the header, or a call that fails, is an error. Then the file is closed.
unfoldable pub update_header : Writer → ℕ → Status
unfolding close_file skip_call
update_header w dict_offset =
    if ltb (length w.file) 64
    then failed w
    else if next_call w
    then ok
        (close_file (skip_call w) (updated_header (take 64 w.file) dict_offset w.entries_written))
    else failed (skip_call w)

-- The writer as it is before its memory is freed; its `file` is what is left on disk.
unfoldable pub binwriter_close : Writer → List LogSite → List CustomLevel → Status
binwriter_close w sites levels = binwriter_flush w >>= wait_for_aio >>= λ w1.
    write_dictionary w1 sites levels >>= binwriter_flush >>= wait_for_aio >>= λ w2.
    update_header w2 w1.bytes_written
