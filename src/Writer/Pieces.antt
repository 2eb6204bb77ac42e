-- ===== src/Writer/Pieces.antt =====
-- src/binary_writer.c: what the dictionary operations append.
use cnano_log.Base.{
  ℕ, ◌-◌, ◌^◌, ◌%◌, ◌≤◌, ◌≡◌, refl, sym, List, [], ◌∷◌, ◌++◌, append-nil, length, length-append,
  length-take, length-replicate, replicate, map, take, arith,
}
use cnano_log.Base.Bytes.{le_bytes}
use cnano_log.Format.{ArgType, code, max_args}
use cnano_log.Registry.{LogSite, used_types}
use cnano_log.Writer.{Writer, Status, ok, ◌>>=◌, buffer_write}
use cnano_log.Writer.Content.{no_call, IsValid, Wrote, content, >>=-Wrote}
use cnano_log.Writer.Append.{buffer_write-Wrote}
use cnano_log.Writer.Dictionary.{
  CustomLevel, type_codes, length16, length8, dict_entry, write_dict_entry, write_dict_entries,
  level_dict_size, dict_size, dict_header, level_dict_magic, dict_magic, level_entry, write_levels,
  write_level_dict, write_dictionary,
}

-- The bytes of the dictionaries.
abbrev pub site_bytes : LogSite → List ℕ
site_bytes s =
    dict_entry s ++ (take (length16 s.filename) s.filename ++ take (length16 s.format) s.format)

abbrev pub sites_bytes : List LogSite → List ℕ
sites_bytes [] = []
sites_bytes (s ∷ ss) = site_bytes s ++ sites_bytes ss

abbrev pub levels_bytes : List CustomLevel → List ℕ
levels_bytes [] = []
levels_bytes (l ∷ ls) = level_entry l ++ (take (length8 l.name) l.name ++ levels_bytes ls)

abbrev pub level_dict_bytes : List CustomLevel → List ℕ
level_dict_bytes [] = []
level_dict_bytes (l ∷ ls) =
    dict_header level_dict_magic (length (l ∷ ls)) (level_dict_size (l ∷ ls))
    ++ levels_bytes (l ∷ ls)

abbrev pub dictionary_bytes : List LogSite → List CustomLevel → List ℕ
dictionary_bytes sites levels =
    level_dict_bytes levels
    ++ (dict_header dict_magic (length sites) (dict_size sites) ++ sites_bytes sites)

-- A step that keeps the buffers' size, with room for each piece of a dictionary.
abbrev pub Appends : (Writer → Status) → List ℕ → Type 0
Appends f xs = (w : Writer) → IsValid w → 2 ^ 16 ≤ w.buffer_size → Wrote w xs (f w)

append_bytes : (bs : List ℕ) → length bs ≤ 2 ^ 16 → Appends (λ w. buffer_write w bs) bs
append_bytes bs h w v room = buffer_write-Wrote w bs v (omega arith)

append_nothing : Appends ok []
append_nothing w v room = (v, sym (append-nil (content w)), refl, refl, no_call)

-- Steps in sequence append in sequence.
append_then :
    (f g : Writer → Status) (xs ys : List ℕ)
    → Appends f xs
    → Appends g ys
    → Appends (λ w. f w >>= g) (xs ++ ys)
append_then f g xs ys a b w v room =
    >>=-Wrote w xs ys (f w) g (a w v room)
      (λ w' e v'. b w' v' (let q = rw e at (a w v room) in omega (arith, q.2)))

-- Writing a string of a length that a field of `k` bytes holds.
append_string :
    (s : List ℕ) (n : ℕ) → n ≤ 2 ^ 16 → Appends (λ w. buffer_write w (take n s)) (take n s)
append_string s n h = append_bytes (take n s) (omega (arith, length-take n s))

length-map : (f : ArgType → ℕ) (ts : List ArgType) → length (map f ts) ≡ length ts
length-map f [] = refl
length-map f (t ∷ ts) = omega (arith, length-map f ts)

length-type_codes : (s : LogSite) → length (type_codes s) ≡ max_args
unfolding type_codes
length-type_codes s =
    let used = take max_args (used_types s) in
    omega (
      arith,
      length-append (map (λ t. code t % 256) used) (replicate (max_args - length used) 0),
      length-map (λ t. code t % 256) used,
      length-replicate {A = ℕ} (max_args - length used) 0,
      length-take max_args (used_types s),
    )

pub length-dict_entry : (s : LogSite) → length (dict_entry s) ≡ 64
unfolding dict_entry le_bytes
length-dict_entry s = omega (arith, length-type_codes s)

append_entry : (s : LogSite) → Appends (λ w. write_dict_entry w s) (site_bytes s)
unfolding write_dict_entry
append_entry s =
    append_then (λ w. buffer_write w (dict_entry s))
      (λ w. buffer_write w (take (length16 s.filename) s.filename) >>= λ w'.
        buffer_write w' (take (length16 s.format) s.format))
      (dict_entry s) (take (length16 s.filename) s.filename ++ take (length16 s.format) s.format)
      (append_bytes (dict_entry s) (omega (arith, length-dict_entry s)))
      (append_then (λ w. buffer_write w (take (length16 s.filename) s.filename))
        (λ w. buffer_write w (take (length16 s.format) s.format))
        (take (length16 s.filename) s.filename) (take (length16 s.format) s.format)
        (append_string s.filename (length16 s.filename) (omega arith))
        (append_string s.format (length16 s.format) (omega arith)))

append_entries : (ss : List LogSite) → Appends (λ w. write_dict_entries w ss) (sites_bytes ss)
unfolding write_dict_entries
append_entries [] = append_nothing
append_entries (s ∷ ss) =
    append_then (λ w. write_dict_entry w s) (λ w. write_dict_entries w ss) (site_bytes s)
      (sites_bytes ss) (append_entry s) (append_entries ss)

append_levels : (ls : List CustomLevel) → Appends (λ w. write_levels w ls) (levels_bytes ls)
unfolding write_levels level_entry le_bytes
append_levels [] = append_nothing
append_levels (l ∷ ls) =
    append_then (λ w. buffer_write w (level_entry l))
      (λ w. buffer_write w (take (length8 l.name) l.name) >>= λ w'. write_levels w' ls)
      (level_entry l) (take (length8 l.name) l.name ++ levels_bytes ls)
      (append_bytes (level_entry l) (omega arith))
      (append_then (λ w. buffer_write w (take (length8 l.name) l.name)) (λ w. write_levels w ls)
        (take (length8 l.name) l.name) (levels_bytes ls)
        (append_string l.name (length8 l.name) (omega arith)) (append_levels ls))

append_header : (m n t : ℕ) → Appends (λ w. buffer_write w (dict_header m n t)) (dict_header m n t)
unfolding dict_header le_bytes
append_header m n t = append_bytes (dict_header m n t) (omega arith)

append_level_dict :
    (ls : List CustomLevel) → Appends (λ w. write_level_dict w ls) (level_dict_bytes ls)
unfolding write_level_dict
append_level_dict [] = append_nothing
append_level_dict (l ∷ ls) =
    let head = dict_header level_dict_magic (length (l ∷ ls)) (level_dict_size (l ∷ ls)) in
    append_then (λ w. buffer_write w head) (λ w. write_levels w (l ∷ ls)) head
      (levels_bytes (l ∷ ls))
      (append_header level_dict_magic (length (l ∷ ls)) (level_dict_size (l ∷ ls)))
      (append_levels (l ∷ ls))

-- Writing the dictionaries to a valid writer whose buffers hold 64 KiB fails only where a system call
-- that it makes fails, the first such call. Otherwise it appends the level dictionary, if there are
-- custom levels, the header of the site dictionary, and each site's entry followed by its strings,
-- and keeps the writer valid; and all the system calls that it made succeeded.
pub write_dictionary-Wrote :
    (sites : List LogSite) (levels : List CustomLevel) (w : Writer)
    → IsValid w
    → 2 ^ 16 ≤ w.buffer_size
    → Wrote w (dictionary_bytes sites levels) (write_dictionary w sites levels)
unfolding write_dictionary
write_dictionary-Wrote sites levels =
    let head = dict_header dict_magic (length sites) (dict_size sites) in
    append_then (λ w. write_level_dict w levels)
      (λ w. buffer_write w head >>= λ w'. write_dict_entries w' sites) (level_dict_bytes levels)
      (head ++ sites_bytes sites) (append_level_dict levels)
      (append_then (λ w. buffer_write w head) (λ w. write_dict_entries w sites) head
        (sites_bytes sites) (append_header dict_magic (length sites) (dict_size sites))
        (append_entries sites))
