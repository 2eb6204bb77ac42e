-- ===== src/Reader.antt =====
-- tools/decompressor.c: reading a log file back. `fp` is the list of the bytes from the file
-- position on. The children model the dictionaries, the entries, the level filter and the lines that
-- are printed, and prove that a written file is read back.
pub mod Dictionary
pub mod LoadLaws
pub mod LoadDictionary
pub mod Context
pub mod Levels
pub mod Message
pub mod Line
pub mod File
use cnano_log.Base.{
  ℕ, List, ◌++◌, ◌≡◌, refl, Option, none, some, length, split_at, split_at-append, take, drop,
}
use cnano_log.Base.Bytes.{le_value}
use cnano_log.Outcome.{Outcome, done, rejected}

-- `fread(&x, 1, n, fp) != n` as an error.
unfoldable pub fread : ℕ → List ℕ → Outcome (List ℕ × List ℕ)
fread n fp = elim (split_at n fp) [ none ↦ rejected | some r ↦ done r ]

-- The integer field of `n` bytes at an offset of a packed structure.
unfoldable pub field : List ℕ → ℕ → ℕ → ℕ
field bytes offset n = le_value (take n (drop offset bytes))

pub fread-append : (n : ℕ) (xs ys : List ℕ) → length xs ≡ n → fread n (xs ++ ys) ≡ done (xs, ys)
unfolding fread
fread-append n xs ys h = rw (split_at-append n xs ys h, fread)
