-- ===== src/Registry/Laws.antt =====
-- src/log_registry.c: what a registration promises.
use cnano_log.Base.{
  ℕ, suc, ◌+◌, ◌<◌, ◌≤◌, ◌≡◌, refl, ◌⊎◌, inl, inr, List, [], ◌∷◌, ◌++◌, some, true, false, ==_refl,
  get_elem?, length, All, All-append, arith, Bool-cases,
}
use cnano_log.Registry.{LogSite, LogRegistry, uint32_max, str_eq, same_site, find_site, active}
use cnano_log.Registry.Active.{Fits}

str_eq_refl : (s : List ℕ) → str_eq s s ≡ true
unfolding str_eq
str_eq_refl [] = refl
str_eq_refl (a ∷ s) = rw (==_refl a, str_eq_refl s)

str_eq→eq : (s t : List ℕ) → str_eq s t ≡ true → s ≡ t
unfolding str_eq
str_eq→eq [] [] h = refl
str_eq→eq [] (b ∷ t) h = cc
str_eq→eq (a ∷ s) [] h = cc
str_eq→eq (a ∷ s) (b ∷ t) h = ground (arith, str_eq→eq s t)

-- The key of a call site: where it stands and its format string.
abbrev pub HasKey : LogSite → List ℕ → ℕ → List ℕ → Type 0
HasKey s filename line_number format =
    (s.filename ≡ filename) × (s.line_number ≡ line_number) × (s.format ≡ format)

pub same_site→HasKey :
    (s : LogSite) (f : List ℕ) (l : ℕ) (g : List ℕ) → same_site s f l g ≡ true → HasKey s f l g
unfolding same_site
same_site→HasKey s f l g h = ground (arith, str_eq→eq s.filename f, str_eq→eq s.format g)

pub HasKey→same_site :
    (s : LogSite) (f : List ℕ) (l : ℕ) (g : List ℕ) → HasKey s f l g → same_site s f l g ≡ true
unfolding same_site
HasKey→same_site s f l g h = rw (h.0, h.1, h.2, ==_refl l, str_eq_refl f, str_eq_refl g)

-- The ids count up from `n`.
abbrev pub IdsFrom : ℕ → List LogSite → Type 0
IdsFrom n [] = Unit
IdsFrom n (s ∷ ss) = (s.log_id ≡ n) × IdsFrom (suc n) ss

-- No two sites have the same key.
abbrev pub Distinct : List LogSite → Type 0
Distinct [] = Unit
Distinct (s ∷ ss) =
    All (λ t. same_site s t.filename t.line_number t.format ≡ false) ss × Distinct ss

-- A registry in use: its array, ids that are positions, and one site for each key. The capacity
-- doubles, and up to 2^30 the doubling does not wrap.
pub record IsValid (r : LogRegistry) : Type 0 where
  pub fits : Fits r
  pub ids : IdsFrom 0 (active r)
  pub distinct : Distinct (active r)

pub IdsFrom-append :
    (n : ℕ) (ss : List LogSite) (s : LogSite)
    → IdsFrom n ss
    → s.log_id ≡ n + length ss
    → IdsFrom n (ss ++ (s ∷ []))
IdsFrom-append n [] s h e = (omega arith, tt)
IdsFrom-append n (t ∷ ss) s h e = (h.0, IdsFrom-append (suc n) ss s h.1 (omega arith))

pub Distinct-append :
    (ss : List LogSite) (s : LogSite)
    → Distinct ss
    → All (λ t. same_site t s.filename s.line_number s.format ≡ false) ss
    → Distinct (ss ++ (s ∷ []))
Distinct-append [] s h fresh = (tt, tt)
Distinct-append (t ∷ ss) s h fresh =
    (All-append _ ss (s ∷ []) h.0 (fresh.0, tt), Distinct-append ss s h.1 fresh.1)

module _ (f : List ℕ) (l : ℕ) (g : List ℕ) where
  -- The search finds the first site with the key, or there is none.
  pub find_site_cases :
      (n : ℕ) (ss : List LogSite)
      → IdsFrom n ss
      → n + length ss ≤ uint32_max
      → (find_site ss f l g ≡ uint32_max) × All (λ t. same_site t f l g ≡ false) ss
        ⊎ ((i : ℕ) × (s : LogSite) × (find_site ss f l g ≡ n + i)
            × (get_elem? ss i ≡ some s)
            × (same_site s f l g ≡ true)
            × (i < length ss))
  unfolding find_site
  find_site_cases n [] ids small = inl (refl, tt)
  find_site_cases n (s ∷ ss) ids small = elim (Bool-cases (same_site s f l g)) [
    | inl same ↦ inr (0, s, rw same (omega (arith, ids.0)), refl, same, omega arith)
    | inr other ↦ elim (find_site_cases (suc n) ss ids.1 (omega arith)) [
      | inl (e, fresh) ↦ inl (rw (other, e), (other, fresh))
      | inr (i, t, e, at_i, same, lt) ↦
          inr (suc i, t, rw (other, e) (omega arith), at_i, same, omega arith)
    ]
  ]
