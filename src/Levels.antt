-- ===== src/Levels.antt =====
-- src/cnanolog.c: the custom log levels. `levels` is the part of the array that is in use.
pub mod Laws
use cnano_log.Base.{
  ℕ, ◌+◌, List, [], ◌∷◌, ◌++◌, Option, none, some, Bool, true, false, if◌then◌else◌, ltb, leb, ◌==◌,
  length, take,
}
use cnano_log.Reader.Context.{c_string}
use cnano_log.Writer.Dictionary.{CustomLevel}

-- `g_custom_levels` with its count, and `g_is_initialized`.
pub record CustomLevels : Type 0 where
  pub levels : List CustomLevel
  pub is_initialized : Bool

abbrev pub max_custom_levels : ℕ
max_custom_levels = 64

-- The search for a level that is registered already.
unfoldable pub level_used : List CustomLevel → ℕ → Bool
level_used [] level = false
level_used (l ∷ ls) level = if l.level == level then true else level_used ls level

-- `none` is the return value -1. The name is cut to the 31 bytes that its array holds.
unfoldable pub register_level : CustomLevels → Option (List ℕ) → ℕ → Option CustomLevels
unfolding level_used
register_level g none level = none
register_level g (some name) level =
    if g.is_initialized
    then none
    else if ltb level 4
    then none
    else if leb max_custom_levels (length g.levels)
    then none
    else if level_used g.levels level
    then none
    else some (record g {
      levels = g.levels ++ (record { level = level; name = take 31 (c_string name) } ∷ []);
    })

-- The array and the number that goes through `count`.
abbrev pub get_custom_levels : CustomLevels → List CustomLevel × ℕ
get_custom_levels g = (g.levels, length g.levels)
