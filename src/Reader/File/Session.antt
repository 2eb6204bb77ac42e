-- ===== src/Reader/File/Session.antt =====
-- tools/decompressor.c against src/binary_writer.c: a file that was written is read back.
use cnano_log.Base.{
  ℕ, suc, ◌+◌, ◌^◌, ◌<◌, ◌≤◌, ◌≡◌, refl, ap, ◌∙◌, List, [], ◌∷◌, ◌++◌, append_assoc, append-nil,
  Option, Bool, true, ==_ne, length, length-append, split_at-append, drop, drop-append, map, All,
  arith, inl, inr,
}
use cnano_log.Outcome.{done}
use cnano_log.Registry.{LogSite}
use cnano_log.Writer.{Writer, Status, ok, failed, file_header, new_writer}
use cnano_log.Writer.Dictionary.{CustomLevel}
use cnano_log.Writer.Pieces.{dictionary_bytes}
use cnano_log.Writer.Content.{Succeed-nil}
use cnano_log.Writer.Close.{Leaves}
use cnano_log.Writer.Session.{IsEntry, entries_bytes, session, session-Leaves}
use cnano_log.Reader.LoadLaws.{IsSite, IsLevel, loaded_site, loaded_level}
use cnano_log.Reader.Dictionary.{load_dictionary}
use cnano_log.Reader.LoadDictionary.{load_dictionary-dictionary_bytes}
use cnano_log.Reader.Context.{Libc, Context}
use cnano_log.Reader.Line.Fields.{Field, IsField, output_format}
use cnano_log.Reader.File.{
  validate_file_header, check_endianness, decompress_body, decompress_checked, decompress_file,
  file_context, filters_of,
}
use cnano_log.Reader.File.Header.{
  HeaderFits, written_header, length-file_header, parse_header-file_header,
}
use cnano_log.Reader.File.Logged.{Logged, logged_entry, logged_lines, IsLogged}
use cnano_log.Reader.File.Lines.{decompress_entries-logged}

-- The times of a session's header.
pub record Clock : Type 0 where
  pub freq : ℕ
  pub start : ℕ
  pub sec : ℕ
  pub nsec : ℕ

-- Where the dictionaries of the calls' file are, and the context that the tool then works with.
abbrev pub dict_offset : List Logged → ℕ
dict_offset cs = 64 + length (entries_bytes (map logged_entry cs))

abbrev pub session_context : Clock → List Logged → List LogSite → List CustomLevel → Context
session_context t cs sites levels =
    file_context (written_header t.freq t.start t.sec t.nsec (dict_offset cs) (length cs))
      (map loaded_site sites) (map loaded_level levels)

abbrev pub session_file : Clock → List Logged → List LogSite → List CustomLevel → List ℕ
session_file t cs sites levels =
    file_header t.freq t.start t.sec t.nsec (dict_offset cs) (length cs)
    ++ (entries_bytes (map logged_entry cs) ++ dictionary_bytes sites levels)

module _ (libc : Libc) (alloc_ok : ℕ → Bool) (granted : (n : ℕ) → alloc_ok n ≡ true)
    (stale_args stale_values : ℕ → List ℕ) (t : Clock) (cs : List Logged) (sites : List LogSite)
    (levels : List CustomLevel) (fields : List Field) (level_filter : Option (List ℕ)) where
  decompress_body-session_file :
      All IsSite sites
      → All IsLevel levels
      → length sites < 2 ^ 32
      → length levels < 2 ^ 32
      → dict_offset cs < 2 ^ 63
      → All IsField fields
      → All (IsLogged libc (session_context t cs sites levels) fields sites) cs
      → decompress_body libc alloc_ok stale_args stale_values
          (written_header t.freq t.start t.sec t.nsec (dict_offset cs) (length cs))
          (session_file t cs sites levels)
          (output_format fields)
          level_filter
        ≡ done (
          logged_lines libc
              (session_context t cs sites levels)
              fields
              (filters_of (map loaded_level levels) level_filter)
              cs,
          true,
        )
  unfolding decompress_body
  decompress_body-session_file hs hl few_sites few_levels low hf h =
      let head = file_header t.freq t.start t.sec t.nsec (dict_offset cs) (length cs) in
      let es = entries_bytes (map logged_entry cs) in
      let dicts = dictionary_bytes sites levels in
      let size = length-file_header t.freq t.start t.sec t.nsec (dict_offset cs) (length cs) in
      let offset : length (head ++ es) ≡ dict_offset cs =
        omega (arith, length-append head es, size) in
      let filter = filters_of (map loaded_level levels) level_filter in
      let dictionaries =
        load_dictionary-dictionary_bytes alloc_ok granted (head ++ es) [] sites levels hs hl
          few_sites few_levels (omega (arith, offset, low)) in
      let loaded : load_dictionary alloc_ok (session_file t cs sites levels) (dict_offset cs)
          ≡ done (map loaded_site sites, map loaded_level levels) =
        rw (append-nil dicts, append_assoc head es dicts, offset) at dictionaries in
      let behind : drop 64 (session_file t cs sites levels) ≡ es ++ dicts =
        rw size at (drop-append head (es ++ dicts)) in
      let lines =
        decompress_entries-logged libc stale_args stale_values (session_context t cs sites levels)
          fields filter sites cs 0 dicts refl refl hf h in
      rw (loaded, decompress_body, behind) lines

  decompress_file-session_file :
      HeaderFits t.freq t.start t.sec t.nsec (dict_offset cs) (length cs)
      → All IsSite sites
      → All IsLevel levels
      → length sites < 2 ^ 32
      → length levels < 2 ^ 32
      → dict_offset cs < 2 ^ 63
      → All IsField fields
      → All (IsLogged libc (session_context t cs sites levels) fields sites) cs
      → decompress_file libc alloc_ok stale_args stale_values
          (session_file t cs sites levels)
          (output_format fields)
          level_filter
        ≡ done (
          logged_lines libc
              (session_context t cs sites levels)
              fields
              (filters_of (map loaded_level levels) level_filter)
              cs,
          true,
        )
  unfolding decompress_file decompress_checked validate_file_header check_endianness
  decompress_file-session_file hh hs hl few_sites few_levels low hf h =
      let head = file_header t.freq t.start t.sec t.nsec (dict_offset cs) (length cs) in
      let rest = entries_bytes (map logged_entry cs) ++ dictionary_bytes sites levels in
      let nonzero = ==_ne (dict_offset cs) 0 (λ e. omega arith) in
      rw
        (
          split_at-append 64 head rest
              (length-file_header t.freq t.start t.sec t.nsec (dict_offset cs) (length cs)),
          decompress_file,
        )
        (ap
            (λ header.
              decompress_checked libc alloc_ok stale_args stale_values header
                (session_file t cs sites levels) (output_format fields) level_filter)
            (parse_header-file_header t.freq t.start t.sec t.nsec (dict_offset cs) (length cs) hh)
          ∙ rw nonzero (decompress_body-session_file hs hl few_sites few_levels low hf h))

IsEntry-logged :
    (libc : Libc) (ctx : Context) (fields : List Field) (sites : List LogSite) (cs : List Logged)
    → All (IsLogged libc ctx fields sites) cs
    → All IsEntry (map logged_entry cs)
IsEntry-logged libc ctx fields sites [] h = tt
IsEntry-logged libc ctx fields sites (c ∷ cs) h =
    ((h.0).compressed_fit, IsEntry-logged libc ctx fields sites cs h.1)

length-map {ℓ κ} :
    {A : Type ℓ} {B : Type κ} (f : A → B) (xs : List A) → length (map f xs) ≡ length xs
length-map f [] = refl
length-map f (x ∷ xs) = ap suc (length-map f xs)

-- With no outcome in the list every call succeeds, so the file has the new header.
left-file :
    (w : Writer) (old new : List ℕ) (m : Status)
    → w.calls ≡ []
    → Leaves w old new m
    → (w' : Writer) × ((m ≡ ok w') × (w'.file ≡ new))
left-file w old new (ok w') none_fail (cs, (made, inl (file, rest))) = (w', (refl, file))
left-file w old new (ok w') none_fail (cs, (made, inr (file, (synced, closed, lost)))) =
    let none_left = Succeed-nil made none_fail in absurd cc
left-file w old new (failed w') none_fail made =
    let none_left = Succeed-nil made none_fail in absurd cc

-- Calls that are written in a session whose system calls all succeed are read back from the file that
-- it leaves: the tool succeeds and prints one line for each call whose level passes the filter, in
-- the order of the calls, with the message that the call's format and values make. The buffers hold
-- 64 KiB, the allocator grants what is asked for, the numbers fit the fields of the file, each
-- call's site is among the sites under its number, its values have the site's types, no 64-bit
-- integer has a magnitude of 2^56 or more, and its message and its line have room.
pub decompress_file-session :
    (libc : Libc) (alloc_ok : ℕ → Bool) (granted : (n : ℕ) → alloc_ok n ≡ true)
    (stale_args stale_values : ℕ → List ℕ) (size : ℕ) (t : Clock) (cs : List Logged)
    (sites : List LogSite) (levels : List CustomLevel) (fields : List Field)
    (level_filter : Option (List ℕ))
    → 2 ^ 16 ≤ size
    → HeaderFits t.freq t.start t.sec t.nsec (dict_offset cs) (length cs)
    → All IsSite sites
    → All IsLevel levels
    → length sites < 2 ^ 32
    → length levels < 2 ^ 32
    → dict_offset cs < 2 ^ 63
    → All IsField fields
    → All (IsLogged libc (session_context t cs sites levels) fields sites) cs
    → (w : Writer) × ((session size [] t.freq t.start t.sec t.nsec
            (map logged_entry cs)
            sites
            levels
          ≡ ok w)
        × (decompress_file libc alloc_ok stale_args stale_values w.file
              (output_format fields)
              level_filter
            ≡ done (
              logged_lines libc
                  (session_context t cs sites levels)
                  fields
                  (filters_of (map loaded_level levels) level_filter)
                  cs,
              true,
            )))
unfolding new_writer
decompress_file-session libc alloc_ok granted sa sv size t cs sites levels fields level_filter room
      hh hs hl few_sites few_levels low hf h =
    let ctx = session_context t cs sites levels in
    let es = map logged_entry cs in
    let leaves =
      session-Leaves size [] t.freq t.start t.sec t.nsec es sites levels room
        (IsEntry-logged libc ctx fields sites cs h)
        (omega (arith, length-map logged_entry cs, hh.count_fits)) in
    let (w, (run, file)) = left-file (new_writer size []) _ _ _ refl leaves in
    let content : w.file ≡ session_file t cs sites levels =
      rw (length-map logged_entry cs) at file in
    (
      w,
      (
        run,
        rw content (
            decompress_file-session_file libc alloc_ok granted sa sv t cs sites levels fields
              level_filter hh hs hl few_sites few_levels low hf h),
      ),
    )
