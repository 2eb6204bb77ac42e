-- ===== src/Levels/Laws.antt =====
-- src/cnanolog.c against tools/decompressor.c: registered levels, and the names that are printed.
use cnano_log.Base.{
  ℕ, zero, suc, ◌^◌, ◌<◌, ◌≤◌, ◌≡◌, ◌≢◌, refl, sym, ap, List, [], ◌∷◌, ◌++◌, some, false,
  Bool-cases, inl, inr, ltb, leb, ◌==◌, ==_ne, ==_refl, length, length-append, length-take, take,
  map, All, All-append, arith,
}
use cnano_log.Writer.Dictionary.{CustomLevel}
use cnano_log.Reader.LoadLaws.{IsLevel, loaded_level}
use cnano_log.Reader.Context.{Libc, c_string}
use cnano_log.Reader.Levels.{custom_name, level_to_string}
use cnano_log.Levels.{CustomLevels, max_custom_levels, level_used, register_level}

-- The registered level.
abbrev pub new_level : List ℕ → ℕ → CustomLevel
new_level name level = record { level = level; name = take 31 (c_string name) }

-- When a registration succeeds, and what it leaves.
pub record Registered (g : CustomLevels) (name : List ℕ) (level : ℕ) (g' : CustomLevels)
    : Type 0 where
  pub open_still : g.is_initialized ≡ false
  pub not_reserved : 4 ≤ level
  pub room : length g.levels < max_custom_levels
  pub unused : level_used g.levels level ≡ false
  pub result : g' ≡ record g { levels = g.levels ++ (new_level name level ∷ []) }

register_level-Registered :
    (g : CustomLevels) (name : List ℕ) (level : ℕ) (g' : CustomLevels)
    → register_level g (some name) level ≡ some g'
    → Registered g name level g'
unfolding register_level
register_level-Registered g name level g' h = elim (Bool-cases g.is_initialized) [
  | inl e ↦ absurd (let q = rw e at h in cc)
  | inr e ↦ elim (Bool-cases (ltb level 4)) [
    | inl f ↦ absurd (let q = rw (e, f) at h in cc)
    | inr f ↦ elim (Bool-cases (leb max_custom_levels (length g.levels))) [
      | inl k ↦ absurd (let q = rw (e, f, k) at h in cc)
      | inr k ↦ elim (Bool-cases (level_used g.levels level)) [
        | inl u ↦ absurd (let q = rw (e, f, k, u) at h in cc)
        | inr u ↦ record {
          open_still = e;
          not_reserved = ground arith;
          room = ground arith;
          unused = u;
          result = let q = rw (e, f, k, u) at h in cc;
        }
      ]
    ]
  ]
]

-- No two levels have the same number.
unfoldable pub AreDistinct : List CustomLevel → Type 0
AreDistinct [] = Unit
AreDistinct (l ∷ ls) = (level_used ls l.level ≡ false) × AreDistinct ls

abbrev pub IsCustom : CustomLevel → Type 0
IsCustom l = (4 ≤ l.level) × IsLevel l

pub record IsValid (g : CustomLevels) : Type 0 where
  pub few : length g.levels ≤ max_custom_levels
  pub custom : All IsCustom g.levels
  pub distinct : AreDistinct g.levels

level_used-append :
    (ls : List CustomLevel) (n : CustomLevel) (level : ℕ)
    → level_used ls level ≡ false
    → n.level ≢ level
    → level_used (ls ++ (n ∷ [])) level ≡ false
unfolding level_used
level_used-append [] n level h ne = rw (==_ne n.level level ne)
level_used-append (l ∷ ls) n level h ne = elim (Bool-cases (l.level == level)) [
  | inl e ↦ absurd (let q = rw e at h in cc)
  | inr e ↦ rw e (level_used-append ls n level (rw e at h) ne)
]

unused-ne :
    (l : CustomLevel) (ls : List CustomLevel) (level : ℕ)
    → level_used (l ∷ ls) level ≡ false
    → level ≢ l.level
unfolding level_used
unused-ne l ls level h e = let q = rw (sym e, ==_refl level) at h in cc

unused-rest :
    (l : CustomLevel) (ls : List CustomLevel) (level : ℕ)
    → level_used (l ∷ ls) level ≡ false
    → level_used ls level ≡ false
unfolding level_used
unused-rest l ls level h = elim (Bool-cases (l.level == level)) [
  | inl e ↦ absurd (let q = rw e at h in cc)
  | inr e ↦ rw e at h
]

AreDistinct-append :
    (ls : List CustomLevel) (n : CustomLevel)
    → AreDistinct ls
    → level_used ls n.level ≡ false
    → AreDistinct (ls ++ (n ∷ []))
unfolding AreDistinct level_used
AreDistinct-append [] n d h = (refl, tt)
AreDistinct-append (l ∷ ls) n d h = (
  level_used-append ls n l.level d.0 (unused-ne l ls n.level h),
  AreDistinct-append ls n d.1 (unused-rest l ls n.level h),
)

-- A registration keeps the custom levels valid: 64 at most, none of the reserved numbers 0 to 3, no
-- number twice, and each number and name of a size that the file's dictionary holds. The number is
-- a byte.
pub register_level-IsValid :
    (g : CustomLevels) (name : List ℕ) (level : ℕ) (g' : CustomLevels)
    → IsValid g
    → level < 2 ^ 8
    → register_level g (some name) level ≡ some g'
    → IsValid g'
register_level-IsValid g name level g' v byte h =
    let r = register_level-Registered g name level g' h in
    let new : IsCustom (new_level name level) = (
      r.not_reserved,
      record { level_fits = byte; name_fits = omega (arith, length-take 31 (c_string name)) },
    ) in
    rw r.result (record {
      few = omega (arith, length-append g.levels (new_level name level ∷ []), r.room);
      custom = All-append IsCustom g.levels (new_level name level ∷ []) v.custom (new, tt);
      distinct = AreDistinct-append g.levels (new_level name level) v.distinct r.unused;
    })

c_string-take : (n : ℕ) (s : List ℕ) → c_string (take n (c_string s)) ≡ take n (c_string s)
unfolding c_string
c_string-take zero s = refl
c_string-take (suc n) [] = refl
c_string-take (suc n) (c ∷ s) = elim (Bool-cases (c == 0)) [
  | inl e ↦ rw e refl
  | inr e ↦ rw e (rw e (ap (λ t. c ∷ t) (c_string-take n s)))
]

custom_name-new :
    (ls : List CustomLevel) (name : List ℕ) (level : ℕ)
    → level_used ls level ≡ false
    → custom_name (map loaded_level (ls ++ (new_level name level ∷ []))) level
      ≡ some (take 31 (c_string name))
unfolding custom_name level_used
custom_name-new [] name level h = rw (==_refl level, c_string-take 31 name)
custom_name-new (l ∷ ls) name level h = elim (Bool-cases (l.level == level)) [
  | inl e ↦ absurd (let q = rw e at h in cc)
  | inr e ↦ rw e (custom_name-new ls name level (rw e at h))
]

-- A level that was registered is printed under its name, cut to 31 bytes, by the decompressor that
-- has loaded the levels, whatever the other levels are.
pub level_to_string-register_level :
    (libc : Libc) (g : CustomLevels) (name : List ℕ) (level : ℕ) (g' : CustomLevels)
    → register_level g (some name) level ≡ some g'
    → level_to_string libc (map loaded_level g'.levels) level ≡ take 31 (c_string name)
unfolding level_to_string
level_to_string-register_level libc g name level g' h =
    let r = register_level-Registered g name level g' h in
    let high = r.not_reserved in
    rw (
      r.result,
      ==_ne level 0 (λ e. omega arith),
      ==_ne level 1 (λ e. omega arith),
      ==_ne level 2 (λ e. omega arith),
      ==_ne level 3 (λ e. omega arith),
      custom_name-new g.levels name level r.unused,
    )
