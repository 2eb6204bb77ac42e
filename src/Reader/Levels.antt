-- ===== src/Reader/Levels.antt =====
-- tools/decompressor.c: `level_to_string`, `parse_level_filters` and `should_include_level`.
use cnano_log.Base.{
  ℕ, zero, suc, ◌+◌, List, [], ◌∷◌, ◌++◌, Option, some, none, Bool, true, false, ◌&&◌, ◌||◌,
  if◌then◌else◌, leb, ◌==◌, length,
}
use cnano_log.Reader.Dictionary.{LevelEntry}
use cnano_log.Reader.Context.{Libc, c_string}

abbrev pub info_name : List ℕ
info_name = b'I' ∷ (b'N' ∷ (b'F' ∷ (b'O' ∷ [])))

abbrev pub warn_name : List ℕ
warn_name = b'W' ∷ (b'A' ∷ (b'R' ∷ (b'N' ∷ [])))

abbrev pub error_name : List ℕ
error_name = b'E' ∷ (b'R' ∷ (b'R' ∷ (b'O' ∷ (b'R' ∷ []))))

abbrev pub debug_name : List ℕ
debug_name = b'D' ∷ (b'E' ∷ (b'B' ∷ (b'U' ∷ (b'G' ∷ []))))

-- The search among the custom levels.
unfoldable pub custom_name : List LevelEntry → ℕ → Option (List ℕ)
custom_name [] level = none
custom_name (l ∷ ls) level =
    if l.level == level then some (c_string l.name) else custom_name ls level

-- "LEVEL_%u"; the number has three digits at most, so its buffer of 16 bytes holds it.
unfoldable pub unknown_name : Libc → ℕ → List ℕ
unknown_name libc level = b'L' ∷ (b'E' ∷ (b'V' ∷ (b'E' ∷ (b'L' ∷ (b'_' ∷ libc.print_u level)))))

unfoldable pub level_to_string : Libc → List LevelEntry → ℕ → List ℕ
unfolding custom_name unknown_name
level_to_string libc ls level =
    if level == 0
    then info_name
    else if level == 1
    then warn_name
    else if level == 2
    then error_name
    else if level == 3
    then debug_name
    else (elim (custom_name ls level) [ none ↦ unknown_name libc level | some name ↦ name ])

-- `strcasecmp(a, b) == 0` in the C locale.
abbrev pub to_lower : ℕ → ℕ
to_lower c = if leb b'A' c && leb c b'Z' then c + 32 else c

unfoldable pub case_eq : List ℕ → List ℕ → Bool
case_eq [] [] = true
case_eq [] (b ∷ t) = false
case_eq (a ∷ s) [] = false
case_eq (a ∷ s) (b ∷ t) = to_lower a == to_lower b && case_eq s t

abbrev pub is_blank : ℕ → Bool
is_blank c = c == b' ' || c == 9

unfoldable pub trim_start : List ℕ → List ℕ
trim_start [] = []
trim_start (c ∷ s) = if is_blank c then trim_start s else c ∷ s

-- The blanks at the end; the first character of the token is never taken off.
unfoldable pub all_blank : List ℕ → Bool
all_blank [] = true
all_blank (c ∷ s) = is_blank c && all_blank s

unfoldable pub trim_rest : List ℕ → List ℕ
unfolding all_blank
trim_rest [] = []
trim_rest (c ∷ s) = if all_blank (c ∷ s) then [] else c ∷ trim_rest s

unfoldable pub trim_end : List ℕ → List ℕ
unfolding trim_rest
trim_end [] = []
trim_end (c ∷ s) = c ∷ trim_rest s

unfoldable pub trim : List ℕ → List ℕ
unfolding trim_start trim_end
trim s = trim_end (trim_start s)

-- `strtok(str, ",")`, called until it returns NULL: the parts between commas that are not empty.
-- `token` is the part under way.
unfoldable pub add_token : List ℕ → List (List ℕ) → List (List ℕ)
add_token [] ts = ts
add_token (c ∷ s) ts = (c ∷ s) ∷ ts

unfoldable pub tokens : List ℕ → List ℕ → List (List ℕ)
unfolding add_token
tokens token [] = add_token token []
tokens token (c ∷ s) =
    if c == b',' then add_token token (tokens [] s) else tokens (token ++ (c ∷ [])) s

unfoldable pub custom_number : List LevelEntry → List ℕ → ℕ
unfolding case_eq
custom_number [] token = 255
custom_number (l ∷ ls) token =
    if case_eq token (c_string l.name) then l.level else custom_number ls token

-- The level of a token; 255 is none.
unfoldable pub level_number : List LevelEntry → List ℕ → ℕ
unfolding custom_number case_eq
level_number ls token =
    if case_eq token info_name
    then 0
    else if case_eq token warn_name
    then 1
    else if case_eq token error_name
    then 2
    else if case_eq token debug_name
    then 3
    else custom_number ls token

-- The loop over the tokens, with room for `room` more levels.
unfoldable pub token_levels : List LevelEntry → ℕ → List (List ℕ) → List ℕ
unfolding level_number trim
token_levels ls room [] = []
token_levels ls zero (t ∷ ts) = []
token_levels ls (suc room) (t ∷ ts) =
    let level = level_number ls (trim t) in
    let skipped = token_levels ls (suc room) ts in
    let kept = token_levels ls room ts in if level == 255 then skipped else level ∷ kept

-- `levels_out`, whose length is the return value. The copy of the string is taken to be granted.
unfoldable pub parse_level_filters : List LevelEntry → ℕ → List ℕ → List ℕ
unfolding token_levels tokens
parse_level_filters ls max_levels filter = token_levels ls max_levels (tokens [] filter)

unfoldable pub find_level : ℕ → List ℕ → Bool
find_level level [] = false
find_level level (f ∷ fs) = if level == f then true else find_level level fs

unfoldable pub should_include_level : ℕ → List ℕ → Bool
unfolding find_level
should_include_level level filter = if length filter == 0 then true else find_level level filter
