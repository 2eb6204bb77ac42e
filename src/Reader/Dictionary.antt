-- ===== src/Reader/Dictionary.antt =====
-- tools/decompressor.c: `load_level_dictionary` and `load_dictionary`.
use cnano_log.Base.{
  ℕ, zero, suc, ◌+◌, ◌*◌, ◌^◌, List, [], ◌∷◌, Bool, not, if◌then◌else◌, ltb, leb, ◌==◌, drop, map,
}
use cnano_log.Outcome.{Outcome, done, rejected, ◌>>=◌}
use cnano_log.Format.{of_code}
use cnano_log.Decompress.{DictEntry}
use cnano_log.Writer.Dictionary.{level_dict_magic, dict_magic}
use cnano_log.Reader.{fread, field}

-- `level_entry_t`; `name` holds the bytes before the terminator that the source adds.
pub record LevelEntry : Type 0 where
  pub level : ℕ
  pub name : List ℕ

-- Whether the allocator grants a request of so many bytes is the parameter `alloc_ok`.
module _ (alloc_ok : ℕ → Bool) where
  -- The loop over the level entries, with `n` rounds left.
  unfoldable pub load_levels : ℕ → List ℕ → Outcome (List LevelEntry × List ℕ)
  load_levels zero fp = done ([], fp)
  load_levels (suc n) fp = fread 4 fp >>= λ r.
      if ltb 31 (field (r.0) 1 1)
      then rejected
      else (fread (field (r.0) 1 1) (r.1) >>= λ q. load_levels n (q.1) >>= λ s.
          done (record { level = field (r.0) 0 1; name = q.0 } ∷ (s.0), s.1))

  -- The custom levels, and the file position afterwards.
  unfoldable pub load_level_dictionary : List ℕ → Outcome (List LevelEntry × List ℕ)
  unfolding load_levels
  load_level_dictionary fp = fread 16 fp >>= λ r.
      let num_levels = field (r.0) 4 4 in
      if not (field (r.0) 0 4 == level_dict_magic)
      then done ([], fp)
      else if num_levels == 0
      then done ([], r.1)
      else if not (alloc_ok (num_levels * 33))
      then rejected
      else load_levels num_levels (r.1)

  -- The loop over the dictionary entries, with `n` rounds left.
  unfoldable pub load_entries : ℕ → List ℕ → Outcome (List DictEntry × List ℕ)
  load_entries zero fp = done ([], fp)
  load_entries (suc n) fp = fread 64 fp >>= λ r.
      let filename_length = field (r.0) 6 2 in
      let format_length = field (r.0) 8 2 in
      if not (alloc_ok (filename_length + 1))
      then rejected
      else (fread filename_length (r.1) >>= λ q.
          if not (alloc_ok (format_length + 1))
          then rejected
          else (fread format_length (q.1) >>= λ s. load_entries n (s.1) >>= λ t. done (
            record {
              log_id = field (r.0) 0 4;
              log_level = field (r.0) 4 1;
              num_args = field (r.0) 5 1;
              line_number = field (r.0) 10 4;
              filename = q.0;
              format = s.0;
              arg_types = map of_code (drop 14 (r.0));
            }
                ∷ (t.0),
            t.1,
          )))

  -- The seek fails on an offset that is negative as a `long`.
  unfoldable pub load_dictionary : List ℕ → ℕ → Outcome (List DictEntry × List LevelEntry)
  unfolding load_level_dictionary load_entries
  load_dictionary file dict_offset =
      if leb (2 ^ 63) dict_offset
      then rejected
      else (load_level_dictionary (drop dict_offset file) >>= λ l. fread 16 (l.1) >>= λ r.
          if not (field (r.0) 0 4 == dict_magic)
          then rejected
          else if not (alloc_ok (field (r.0) 4 4 * 88))
          then rejected
          else (load_entries (field (r.0) 4 4) (r.1) >>= λ e. done (e.0, l.0)))
