-- ===== src/Registry/Unique.antt =====
-- src/log_registry.c: one id for each call site.
use cnano_log.Base.{
  ℕ, zero, suc, ◌+◌, ◌^◌, ◌≤◌, ◌≡◌, ◌≢◌, refl, ap, ◌∙◌, sym, inl, inr, List, [], ◌∷◌, Option, some,
  Bool, true, false, ◌==◌, get_elem?, length, All, arith,
}
use cnano_log.Registry.{
  LogSite, LogRegistry, uint32_max, same_site, find_site, active, find_existing_site,
  log_registry_register, log_registry_get,
}
use cnano_log.Registry.Active.{length-active, log_registry_get-active}
use cnano_log.Registry.Laws.{
  HasKey, IsValid, Distinct, same_site→HasKey, HasKey→same_site, find_site_cases,
}
use cnano_log.Registry.Register.{
  log_registry_register-IsValid, log_registry_get-register, count-register,
}

HasKey-same :
    (s t x : LogSite) (f : List ℕ) (l : ℕ) (g : List ℕ)
    → some x ≡ some t
    → HasKey s f l g
    → HasKey t f l g
    → same_site s x.filename x.line_number x.format ≡ true
HasKey-same s t x f l g e ks kt =
    let xt : x ≡ t = cc in
    rw xt (
      HasKey→same_site s t.filename t.line_number t.format
        (ks.0 ∙ sym kt.0, ks.1 ∙ sym kt.1, ks.2 ∙ sym kt.2))

get_elem?-fresh :
    (ss : List LogSite) (f : List ℕ) (l : ℕ) (g : List ℕ) (s : LogSite) (i : ℕ) {t : LogSite}
    → All (λ t. same_site s t.filename t.line_number t.format ≡ false) ss
    → get_elem? ss i ≡ some t
    → HasKey s f l g
    → HasKey t f l g
    → ⊥
get_elem?-fresh [] f l g s i h e ks kt = cc
get_elem?-fresh (x ∷ ss) f l g s (suc i) h e ks kt = get_elem?-fresh ss f l g s i h.1 e ks kt
get_elem?-fresh (x ∷ ss) f l g s zero {t} h e ks kt = cc (h.0, HasKey-same s t x f l g e ks kt)

Distinct-position :
    (ss : List LogSite) (f : List ℕ) (l : ℕ) (g : List ℕ) (i j : ℕ) {s t : LogSite}
    → Distinct ss
    → get_elem? ss i ≡ some s
    → get_elem? ss j ≡ some t
    → HasKey s f l g
    → HasKey t f l g
    → i ≡ j
Distinct-position [] f l g i j d ei ej ks kt = cc
Distinct-position (x ∷ ss) f l g zero zero d ei ej ks kt = refl
Distinct-position (x ∷ ss) f l g zero (suc j) {s} {t} d ei ej ks kt =
    let xs : x ≡ s = cc in absurd (get_elem?-fresh ss f l g x j d.0 ej (rw xs ks) kt)
Distinct-position (x ∷ ss) f l g (suc i) zero {s} {t} d ei ej ks kt =
    let xt : x ≡ t = cc in absurd (get_elem?-fresh ss f l g x i d.0 ei (rw xt kt) ks)
Distinct-position (x ∷ ss) f l g (suc i) (suc j) d ei ej ks kt =
    ap suc (Distinct-position ss f l g i j d.1 ei ej ks kt)

-- In a valid registry two ids that name sites with the same file, line and format string are equal.
pub log_registry_get-injective :
    (r : LogRegistry) (f : List ℕ) (l : ℕ) (g : List ℕ) (i j : ℕ) (s t : LogSite)
    → IsValid r
    → log_registry_get r i ≡ some s
    → log_registry_get r j ≡ some t
    → HasKey s f l g
    → HasKey t f l g
    → i ≡ j
log_registry_get-injective r f l g i j s t v ei ej ks kt =
    Distinct-position (active r) f l g i j v.distinct
      (sym (log_registry_get-active r i v.fits) ∙ ei)
      (sym (log_registry_get-active r j v.fits) ∙ ej) ks kt

All-get_elem? {κ} :
    (P : LogSite → Type κ) (ss : List LogSite) (i : ℕ) {s : LogSite}
    → All P ss
    → get_elem? ss i ≡ some s
    → P s
All-get_elem? P [] i h e = cc
All-get_elem? P (x ∷ ss) zero {s} h e = let xs : x ≡ s = cc in rw (← xs) (h.0)
All-get_elem? P (x ∷ ss) (suc i) h e = All-get_elem? P ss i h.1 e

-- A key that is registered is found again.
register_known :
    (ok : Bool) (r : LogRegistry) (level : ℕ) (f : List ℕ) (l : ℕ) (g : List ℕ) (n : ℕ)
    (ts : List ℕ) (p : Option (List ℕ)) (i : ℕ) (s : LogSite)
    → IsValid r
    → r.count ≤ uint32_max
    → log_registry_get r i ≡ some s
    → HasKey s f l g
    → log_registry_register ok r level f l g n ts p ≡ (r, i)
unfolding log_registry_register find_existing_site
register_known ok r level f l g n ts p i s v small at_i key =
    let bound : 0 + length (active r) ≤ uint32_max = omega (arith, length-active r v.fits) in
    elim (find_site_cases f l g 0 (active r) v.ids bound) [
      | inl (e, fresh) ↦
          let differs : same_site s f l g ≡ false =
            All-get_elem? _ (active r) i fresh (sym (log_registry_get-active r i v.fits) ∙ at_i) in
          cc (differs, HasKey→same_site s f l g key)
      | inr (j, t, e, at_j, same, lt) ↦
          let there = log_registry_get-active r j v.fits ∙ at_j in
          let i_eq : i ≡ j =
            log_registry_get-injective r f l g i j s t v at_i there key
              (same_site→HasKey t f l g same) in
          let id : find_site (active r) f l g ≡ j = omega arith in
          let known : (j == uint32_max) ≡ false = ground (arith, bound) in rw (i_eq, id, known)
    ]

-- In a valid registry of at most 2^30 sites, after a registration that returned an id, registering
-- the same file, line and format string again, with whatever level, types and pattern, returns that
-- id and changes nothing.
pub log_registry_register-again :
    (ok ok' : Bool) (r : LogRegistry) (level level' : ℕ) (f : List ℕ) (l : ℕ) (g : List ℕ)
    (n n' : ℕ) (ts ts' : List ℕ) (p p' : Option (List ℕ))
    → IsValid r
    → r.capacity ≤ 2 ^ 30
    → (log_registry_register ok r level f l g n ts p).1 ≢ uint32_max
    → log_registry_register ok'
        (log_registry_register ok r level f l g n ts p).0
        level'
        f
        l
        g
        n'
        ts'
        p'
      ≡ log_registry_register ok r level f l g n ts p
log_registry_register-again ok ok' r level level' f l g n n' ts ts' p p' v small given =
    elim (log_registry_get-register ok r level f l g n ts p v small) [
      | inl (bad, id) ↦ absurd (given id)
      | inr (s, at_id, key) ↦
          register_known ok' _ level' f l g n' ts' p' _ s
            (log_registry_register-IsValid ok r level f l g n ts p v small)
            (omega (arith, count-register ok r level f l g n ts p v small, v.fits)) at_id key
    ]
