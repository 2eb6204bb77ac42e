-- ===== src/Reader/LoadDictionary.antt =====
-- tools/decompressor.c against src/binary_writer.c: the dictionaries at the end of a file.
use cnano_log.Base.{
  ℕ, ◌*◌, ◌^◌, ◌<◌, ◌≡◌, refl, List, [], ◌∷◌, ◌++◌, append_assoc, Bool, true, false, ◌==◌,
  lt→leb_false, drop-append, length, map, All, arith,
}
use cnano_log.Base.Bytes.{le_bytes, le_value}
use cnano_log.Outcome.{done}
use cnano_log.Registry.{LogSite}
use cnano_log.Writer.Dictionary.{
  CustomLevel, dict_header, dict_size, level_dict_size, level_dict_magic, dict_magic,
}
use cnano_log.Writer.Pieces.{sites_bytes, levels_bytes, level_dict_bytes, dictionary_bytes}
use cnano_log.Reader.{field, fread-append}
use cnano_log.Reader.Dictionary.{load_level_dictionary, load_dictionary}
use cnano_log.Reader.LoadLaws.{
  IsSite, IsLevel, loaded_site, loaded_level, load_levels_lem, load_entries_lem,
}

module _ (magic n size : ℕ) where
  length-dict_header : length (dict_header magic n size) ≡ 16
  unfolding dict_header le_bytes
  length-dict_header = refl

  field-magic : magic < 2 ^ 32 → field (dict_header magic n size) 0 4 ≡ magic
  unfolding field dict_header le_bytes le_value
  field-magic h = omega arith

  field-number : n < 2 ^ 32 → field (dict_header magic n size) 4 4 ≡ n
  unfolding field dict_header le_bytes le_value
  field-number h = omega arith

module _ (alloc_ok : ℕ → Bool) (granted : (n : ℕ) → alloc_ok n ≡ true) where
  load_level_dictionary_lem :
      (ls : List CustomLevel) (n size : ℕ) (rest : List ℕ)
      → All IsLevel ls
      → length ls < 2 ^ 32
      → load_level_dictionary alloc_ok
          (level_dict_bytes ls ++ (dict_header dict_magic n size ++ rest))
        ≡ done (map loaded_level ls, dict_header dict_magic n size ++ rest)
  unfolding load_level_dictionary
  load_level_dictionary_lem [] n size rest h few = rw (
    fread-append 16 (dict_header dict_magic n size) rest (length-dict_header dict_magic n size),
    field-magic dict_magic n size (omega arith),
  )
  load_level_dictionary_lem (l ∷ ls) n size rest h few =
      let number = length (l ∷ ls) in
      let head = dict_header level_dict_magic number (level_dict_size (l ∷ ls)) in
      let behind = dict_header dict_magic n size ++ rest in
      let some_levels : (number == 0) ≡ false = ground arith in
      rw
        (
          append_assoc head (levels_bytes (l ∷ ls)) behind,
          fread-append 16 head (levels_bytes (l ∷ ls) ++ behind)
              (length-dict_header level_dict_magic number (level_dict_size (l ∷ ls))),
          field-magic level_dict_magic number (level_dict_size (l ∷ ls)) (omega arith),
          field-number level_dict_magic number (level_dict_size (l ∷ ls)) few,
          some_levels,
          granted (number * 33),
        )
        (load_levels_lem alloc_ok (l ∷ ls) behind h)

  -- The dictionaries of a file that was written are loaded from their offset: each site and each
  -- level, in order, with its fields and strings. The values fit the fields that hold them, there
  -- are fewer than 2^32 sites and levels, the offset fits a `long`, and the allocator grants what
  -- is asked for.
  pub load_dictionary-dictionary_bytes :
      (before after : List ℕ) (sites : List LogSite) (levels : List CustomLevel)
      → All IsSite sites
      → All IsLevel levels
      → length sites < 2 ^ 32
      → length levels < 2 ^ 32
      → length before < 2 ^ 63
      → load_dictionary alloc_ok
          (before ++ (dictionary_bytes sites levels ++ after))
          (length before)
        ≡ done (map loaded_site sites, map loaded_level levels)
  unfolding load_dictionary
  load_dictionary-dictionary_bytes before after sites levels hs hl few_sites few_levels low =
      let head = dict_header dict_magic (length sites) (dict_size sites) in
      rw (
        lt→leb_false (2 ^ 63) (length before) low,
        drop-append before (dictionary_bytes sites levels ++ after),
        append_assoc (level_dict_bytes levels) (head ++ sites_bytes sites) after,
        append_assoc head (sites_bytes sites) after,
        load_level_dictionary_lem levels (length sites) (dict_size sites)
            (sites_bytes sites ++ after) hl few_levels,
        fread-append 16 head (sites_bytes sites ++ after)
            (length-dict_header dict_magic (length sites) (dict_size sites)),
        field-magic dict_magic (length sites) (dict_size sites) (omega arith),
        field-number dict_magic (length sites) (dict_size sites) few_sites,
        granted (length sites * 88),
        load_entries_lem alloc_ok granted sites after hs,
      )
