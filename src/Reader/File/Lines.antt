-- ===== src/Reader/File/Lines.antt =====
-- tools/decompressor.c: the entry loop of `decompress_file` on written entries.
use cnano_log.Base.{
  ℕ, zero, suc, ◌+◌, ◌^◌, ◌<◌, ◌≤◌, ◌≡◌, refl, ap, List, [], ◌∷◌, ◌++◌, append_assoc, some, true,
  if◌then◌else◌, ==_ne, Bool-cases, inl, inr, length, length-append, take, get_elem?, map, All,
  arith, split_at-append,
}
use cnano_log.Base.Bytes.{le_bytes, length-le_bytes, le_value-le_bytes}
use cnano_log.Outcome.{done}
use cnano_log.Args.{
  Arg, scalar, text, int32, int64, uint32, uint64, double, pointer, char, width, encode,
  encode_args, IsArg, types,
}
use cnano_log.Registry.{LogSite}
use cnano_log.Compressor.Spec.{compressed, nibble_array}
use cnano_log.Decompress.{DictEntry, used_types}
use cnano_log.Packer.{nibble_bytes}
use cnano_log.Packer.Nibbles.{set_nibbles}
use cnano_log.Decompress.ReadInts.{IsNarrow}
use cnano_log.Decompress.RoundTrip.{decompress-compressed}
use cnano_log.Writer.{entry_header}
use cnano_log.Writer.Session.{Entry, entry_bytes, entries_bytes}
use cnano_log.Reader.{fread-append}
use cnano_log.Reader.LoadLaws.{loaded_site}
use cnano_log.Reader.Context.{Libc, Context, c_string, format_timestamp}
use cnano_log.Reader.Levels.{should_include_level}
use cnano_log.Reader.Message.Pieces.{render}
use cnano_log.Reader.Message.Laws.{format_log_message-render}
use cnano_log.Reader.Line.Fields.{Field, IsField, output_format}
use cnano_log.Reader.Line.Laws.{format_output-line_text}
use cnano_log.Reader.File.{
  entry, read_timestamp, read_entry, max_entry_size, data_to_format, restored_or, timestamp_text,
  print_entry, decompress_entries,
}
use cnano_log.Reader.File.Sizes.{used_types-loaded_site, length-compressed}
use cnano_log.Reader.File.Logged.{
  Logged, logged_call, logged_entry, logged_line, logged_lines, IsLogged,
}

length-encode : (a : Arg) → 0 < length (encode a)
unfolding width
length-encode (scalar int32 w) = omega (arith, length-le_bytes 4 w)
length-encode (scalar int64 w) = omega (arith, length-le_bytes 8 w)
length-encode (scalar uint32 w) = omega (arith, length-le_bytes 4 w)
length-encode (scalar uint64 w) = omega (arith, length-le_bytes 8 w)
length-encode (scalar double w) = omega (arith, length-le_bytes 8 w)
length-encode (scalar pointer w) = omega (arith, length-le_bytes 8 w)
length-encode (scalar char w) = omega (arith, length-le_bytes 1 w)
length-encode (text s) =
    omega (arith, length-append (le_bytes 4 (length s)) s, length-le_bytes 4 (length s))

restored_or-done :
    (mem stale bytes : List ℕ)
    → 0 < length bytes
    → restored_or mem stale (done bytes) ≡ done (bytes ++ stale)
restored_or-done mem stale [] h = absurd (omega arith)
restored_or-done mem stale (b ∷ bytes) h = refl

-- The message is formatted from the argument data of the call.
data_to_format-compressed :
    (dict : DictEntry) (args : List Arg) (stale_args stale_values : List ℕ)
    → used_types dict ≡ types args
    → All IsArg args
    → All IsNarrow args
    → length (encode_args args) ≤ max_entry_size
    → (stale : List ℕ) × (data_to_format dict (compressed args) stale_args stale_values
        ≡ done (encode_args args ++ stale))
unfolding data_to_format compressed nibble_array set_nibbles nibble_bytes
data_to_format-compressed dict [] sa sv ht ha hn room = (sa, refl)
data_to_format-compressed dict (a ∷ args) sa sv ht ha hn room =
    let all = a ∷ args in
    let nonempty =
      ==_ne (length (compressed all)) 0 (λ e. omega (arith, length-compressed a args)) in
    (
      sv,
      rw (nonempty, decompress-compressed dict all max_entry_size sa ht ha hn room)
          (restored_or-done (compressed all ++ sa) sv (encode_args all)
            (omega (arith, length-encode a, length-append (encode a) (encode_args args)))),
    )

get_elem?-map {ℓ κ} :
    {A : Type ℓ} {B : Type κ} (f : A → B) (xs : List A) (i : ℕ) (x : A)
    → get_elem? xs i ≡ some x
    → get_elem? (map f xs) i ≡ some (f x)
get_elem?-map f [] i x h = cc
get_elem?-map f (y ∷ xs) zero x h = cc
get_elem?-map f (y ∷ xs) (suc i) x h = get_elem?-map f xs i x h

take-short : (n : ℕ) (xs : List ℕ) → length xs ≤ n → take n xs ≡ xs
take-short zero [] h = refl
take-short zero (x ∷ xs) h = absurd (omega arith)
take-short (suc n) [] h = refl
take-short (suc n) (x ∷ xs) h = ap (λ r. x ∷ r) (take-short n xs (omega arith))

length-c_string : (s : List ℕ) → length (c_string s) ≤ length s
unfolding c_string
length-c_string [] = omega arith
length-c_string (c ∷ s) = let rest = length-c_string s in ground arith

-- An entry is read back, and what follows it is left.
read_entry-entry_bytes :
    (ctx : Context) (e : Entry) (dict : DictEntry) (rest : List ℕ)
    → ctx.has_timestamps ≡ true
    → get_elem? ctx.entries e.log_id ≡ some dict
    → e.log_id < 2 ^ 32
    → e.timestamp < 2 ^ 64
    → length e.arg_data < 2 ^ 16
    → read_entry ctx (entry_bytes e ++ rest) ≡ entry e.timestamp dict e.arg_data rest
unfolding read_entry read_timestamp entry_header
read_entry-entry_bytes ctx e dict rest ht hd id_fits time_fits data_fits =
    let id = le_bytes 4 e.log_id in
    let time = le_bytes 8 e.timestamp in
    let size = le_bytes 2 (length e.arg_data) in
    rw (
      append_assoc (id ++ (time ++ size)) e.arg_data rest,
      append_assoc id (time ++ size) (e.arg_data ++ rest),
      append_assoc time size (e.arg_data ++ rest),
      split_at-append 4 id (time ++ (size ++ (e.arg_data ++ rest))) (length-le_bytes 4 e.log_id),
      read_entry,
      ht,
      fread-append 8 time (size ++ (e.arg_data ++ rest)) (length-le_bytes 8 e.timestamp),
      fread-append 2 size (e.arg_data ++ rest) (length-le_bytes 2 (length e.arg_data)),
      le_value-le_bytes 4 e.log_id id_fits,
      hd,
      le_value-le_bytes 2 (length e.arg_data) data_fits,
      fread-append (length e.arg_data) e.arg_data rest refl,
      le_value-le_bytes 8 e.timestamp time_fits,
    )

timestamp_text-on :
    (libc : Libc) (ctx : Context) (timestamp : ℕ)
    → ctx.has_timestamps ≡ true
    → timestamp_text libc ctx timestamp ≡ format_timestamp libc ctx timestamp
unfolding timestamp_text
timestamp_text-on libc ctx timestamp h = rw h

module _ (libc : Libc) (stale_args stale_values : ℕ → List ℕ) (ctx : Context) (fields : List Field)
    (filter : List ℕ) (sites : List LogSite) where
  -- The line of one call.
  print_entry-logged :
      (n : ℕ) (c : Logged)
      → ctx.has_timestamps ≡ true
      → All IsField fields
      → IsLogged libc ctx fields sites c
      → print_entry libc stale_args stale_values ctx
          (output_format fields)
          filter
          n
          c.timestamp
          (loaded_site c.site)
          (compressed c.args)
        ≡ done (
            if should_include_level ((c.site).log_level) filter
            then logged_line libc ctx fields c ∷ []
            else [])
  unfolding print_entry
  print_entry-logged n c ht hf v =
      let dict = loaded_site c.site in
      let shown = render libc c.pieces c.args in
      let typed = used_types-loaded_site c.site c.args v.typed v.numbered v.few in
      let short = length-c_string shown in
      let time = timestamp_text-on libc ctx c.timestamp ht in
      let (stale, bytes) =
        data_to_format-compressed dict c.args (stale_args n) (stale_values n) typed v.args_valid
          v.narrow (omega (arith, v.data_fit)) in
      let message =
        format_log_message-render libc dict c.pieces c.args stale 2048 v.formatted typed
          v.pieces_valid v.args_valid v.message_fits in
      let line = format_output-line_text libc (logged_call libc ctx c) fields 4096 hf v.line_fits in
      elim (Bool-cases (should_include_level ((c.site).log_level) filter)) [
        | inl shows ↦ rw (
          shows,
          time,
          bytes,
          message,
          take-short 2047 (c_string shown) (omega (arith, v.message_fits, short)),
          line,
        )
        | inr hides ↦ rw hides
      ]

  -- The loop prints the lines of the calls whose entries it reads, and succeeds.
  pub decompress_entries-logged :
      (cs : List Logged) (n : ℕ) (rest : List ℕ)
      → ctx.has_timestamps ≡ true
      → ctx.entries ≡ map loaded_site sites
      → All IsField fields
      → All (IsLogged libc ctx fields sites) cs
      → decompress_entries libc stale_args stale_values ctx
          (output_format fields)
          filter
          (length cs)
          n
          (entries_bytes (map logged_entry cs) ++ rest)
        ≡ done (logged_lines libc ctx fields filter cs, true)
  unfolding decompress_entries logged_lines
  decompress_entries-logged [] n rest ht he hf h = refl
  decompress_entries-logged (c ∷ cs) n rest ht he hf h =
      let v = h.0 in
      let e = logged_entry c in
      let more = entries_bytes (map logged_entry cs) in
      let found : get_elem? ctx.entries e.log_id ≡ some (loaded_site c.site) =
        rw he (get_elem?-map loaded_site sites e.log_id c.site v.registered) in
      rw (
        append_assoc (entry_bytes e) more rest,
        decompress_entries,
        read_entry-entry_bytes ctx e (loaded_site c.site) (more ++ rest) ht found v.id_fits
            v.timestamp_fits v.compressed_fit,
        print_entry-logged n c ht hf v,
        decompress_entries-logged cs (n + 1) rest ht he hf h.1,
      )
