-- ===== src/Reader/LoadLaws.antt =====
-- tools/decompressor.c against src/binary_writer.c: dictionaries that were written are loaded.
use cnano_log.Base.{
  ℕ, suc, ◌+◌, ◌^◌, ◌<◌, ◌≤◌, ◌≡◌, refl, List, [], ◌∷◌, ◌++◌, append_assoc, Bool, true,
  le→ltb_false, drop, take, take_all, length, map, All, arith,
}
use cnano_log.Base.Bytes.{le_bytes, le_value}
use cnano_log.Outcome.{done, ◌>>=◌}
use cnano_log.Format.{of_code}
use cnano_log.Registry.{LogSite}
use cnano_log.Decompress.{DictEntry}
use cnano_log.Writer.Dictionary.{
  CustomLevel, length16, length8, type_codes, dict_entry, level_entry,
}
use cnano_log.Writer.Pieces.{length-dict_entry, sites_bytes, levels_bytes}
use cnano_log.Reader.{field, fread-append}
use cnano_log.Reader.Dictionary.{LevelEntry, load_levels, load_entries}

-- Field values that their bytes hold.
pub record IsSite (s : LogSite) : Type 0 where
  pub log_id_fits : s.log_id < 2 ^ 32
  pub log_level_fits : s.log_level < 2 ^ 8
  pub num_args_fits : s.num_args < 2 ^ 8
  pub line_number_fits : s.line_number < 2 ^ 32
  pub filename_fits : length s.filename < 2 ^ 16
  pub format_fits : length s.format < 2 ^ 16

-- The structure holds a name of 31 bytes at most.
pub record IsLevel (l : CustomLevel) : Type 0 where
  pub level_fits : l.level < 2 ^ 8
  pub name_fits : length l.name ≤ 31

-- What is loaded for a site and for a level.
abbrev pub loaded_site : LogSite → DictEntry
loaded_site s = record {
  log_id = s.log_id;
  log_level = s.log_level;
  num_args = s.num_args;
  line_number = s.line_number;
  filename = s.filename;
  format = s.format;
  arg_types = map of_code (type_codes s);
}

abbrev pub loaded_level : CustomLevel → LevelEntry
loaded_level l = record { level = l.level; name = l.name }

module _ (s : LogSite) (v : IsSite s) where
  field-log_id : field (dict_entry s) 0 4 ≡ s.log_id
  unfolding field dict_entry le_bytes le_value
  field-log_id = omega (arith, v)

  field-log_level : field (dict_entry s) 4 1 ≡ s.log_level
  unfolding field dict_entry le_bytes le_value
  field-log_level = omega (arith, v)

  field-num_args : field (dict_entry s) 5 1 ≡ s.num_args
  unfolding field dict_entry le_bytes le_value
  field-num_args = omega (arith, v)

  field-filename_length : field (dict_entry s) 6 2 ≡ length s.filename
  unfolding field dict_entry le_bytes le_value
  field-filename_length = omega (arith, v)

  field-format_length : field (dict_entry s) 8 2 ≡ length s.format
  unfolding field dict_entry le_bytes le_value
  field-format_length = omega (arith, v)

  field-line_number : field (dict_entry s) 10 4 ≡ s.line_number
  unfolding field dict_entry le_bytes le_value
  field-line_number = omega (arith, v)

  drop-types : drop 14 (dict_entry s) ≡ type_codes s
  unfolding dict_entry le_bytes
  drop-types = refl

field-level : (l : CustomLevel) → IsLevel l → field (level_entry l) 0 1 ≡ l.level
unfolding field level_entry le_bytes le_value
field-level l v = omega (arith, v)

field-name_length : (l : CustomLevel) → IsLevel l → field (level_entry l) 1 1 ≡ length l.name
unfolding field level_entry le_bytes le_value
field-name_length l v = omega (arith, v)

length-level_entry : (l : CustomLevel) → length (level_entry l) ≡ 4
unfolding level_entry le_bytes
length-level_entry l = refl

level_name : (l : CustomLevel) → IsLevel l → take (length8 l.name) l.name ≡ l.name
level_name l v =
    let e : length8 l.name ≡ length l.name = omega (arith, v) in
    rw e (take_all (length l.name) l.name refl)

site_string : (s : List ℕ) → length s < 2 ^ 16 → take (length16 s) s ≡ s
site_string s h = let e : length16 s ≡ length s = omega arith in rw e (take_all (length s) s refl)

module _ (alloc_ok : ℕ → Bool) where
  load_levels_step :
      (n : ℕ) (e q fp : List ℕ)
      → length e ≡ 4
      → field e 1 1 ≡ length q
      → length q ≤ 31
      → load_levels alloc_ok (suc n) (e ++ (q ++ fp)) ≡ (
          load_levels alloc_ok n fp >>= λ s.
          done (record { level = field e 0 1; name = q } ∷ (s.0), s.1))
  unfolding load_levels
  load_levels_step n e q fp he hq short = rw (
    fread-append 4 e (q ++ fp) he,
    hq,
    le→ltb_false 31 (length q) short,
    fread-append (length q) q fp refl,
  )

  pub load_levels_lem :
      (ls : List CustomLevel) (rest : List ℕ)
      → All IsLevel ls
      → load_levels alloc_ok (length ls) (levels_bytes ls ++ rest)
        ≡ done (map loaded_level ls, rest)
  unfolding load_levels
  load_levels_lem [] rest h = refl
  load_levels_lem (l ∷ ls) rest (v, h) = rw (
    level_name l v,
    append_assoc (level_entry l) (l.name ++ levels_bytes ls) rest,
    append_assoc l.name (levels_bytes ls) rest,
    load_levels_step (length ls) (level_entry l) l.name (levels_bytes ls ++ rest)
        (length-level_entry l) (field-name_length l v) v.name_fits,
    load_levels_lem ls rest h,
    field-level l v,
  )

module _ (alloc_ok : ℕ → Bool) (granted : (n : ℕ) → alloc_ok n ≡ true) where
  load_entries_step :
      (n : ℕ) (e f g fp : List ℕ)
      → length e ≡ 64
      → field e 6 2 ≡ length f
      → field e 8 2 ≡ length g
      → load_entries alloc_ok (suc n) (e ++ (f ++ (g ++ fp))) ≡ (
          load_entries alloc_ok n fp >>= λ t. done (
            record {
              log_id = field e 0 4;
              log_level = field e 4 1;
              num_args = field e 5 1;
              line_number = field e 10 4;
              filename = f;
              format = g;
              arg_types = map of_code (drop 14 e);
            }
                ∷ (t.0),
            t.1,
          ))
  unfolding load_entries
  load_entries_step n e f g fp he hf hg = rw (
    fread-append 64 e (f ++ (g ++ fp)) he,
    hf,
    hg,
    granted (length f + 1),
    fread-append (length f) f (g ++ fp) refl,
    granted (length g + 1),
    fread-append (length g) g fp refl,
  )

  pub load_entries_lem :
      (ss : List LogSite) (rest : List ℕ)
      → All IsSite ss
      → load_entries alloc_ok (length ss) (sites_bytes ss ++ rest) ≡ done (map loaded_site ss, rest)
  unfolding load_entries
  load_entries_lem [] rest h = refl
  load_entries_lem (s ∷ ss) rest (v, h) = rw (
    site_string s.filename v.filename_fits,
    site_string s.format v.format_fits,
    append_assoc (dict_entry s) (s.filename ++ s.format) (sites_bytes ss),
    append_assoc (dict_entry s) ((s.filename ++ s.format) ++ sites_bytes ss) rest,
    append_assoc s.filename s.format (sites_bytes ss),
    append_assoc s.filename (s.format ++ sites_bytes ss) rest,
    append_assoc s.format (sites_bytes ss) rest,
    load_entries_step (length ss) (dict_entry s) s.filename s.format (sites_bytes ss ++ rest)
        (length-dict_entry s) (field-filename_length s v) (field-format_length s v),
    load_entries_lem ss rest h,
    field-log_id s v,
    field-log_level s v,
    field-num_args s v,
    field-line_number s v,
    drop-types s v,
  )
