-- ===== src/Registry/Register.antt =====
-- src/log_registry.c: `log_registry_register` and what its callers rely on.
use cnano_log.Base.{
  ℕ, zero, suc, ◌+◌, ◌^◌, ◌≤◌, ◌≡◌, refl, ap, ◌∙◌, sym, ◌⊎◌, inl, inr, List, [], ◌∷◌, ◌++◌, Option,
  some, Bool, false, ◌==◌, get_elem?, length, length-append, length-replicate, All, arith,
}
use cnano_log.Registry.{
  LogSite, LogRegistry, uint32_max, same_site, find_site, active, find_existing_site, add_site,
  new_site, log_registry_init, log_registry_register, log_registry_get, zero_site, initial_capacity,
}
use cnano_log.Registry.Active.{
  HasRoom, length-active, log_registry_get-active, grow_if_needed_lem, active-add_site,
}
use cnano_log.Registry.Laws.{
  HasKey, IsValid, IdsFrom-append, Distinct-append, same_site→HasKey, find_site_cases,
}

get_elem?-append :
    (xs ys : List LogSite) (i : ℕ) {s : LogSite}
    → get_elem? xs i ≡ some s
    → get_elem? (xs ++ ys) i ≡ some s
get_elem?-append [] ys i e = cc
get_elem?-append (x ∷ xs) ys zero e = e
get_elem?-append (x ∷ xs) ys (suc i) e = get_elem?-append xs ys i e

get_elem?-last :
    (xs : List LogSite) (n : ℕ) (s : LogSite)
    → length xs ≡ n
    → get_elem? (xs ++ (s ∷ [])) n ≡ some s
get_elem?-last [] zero s e = refl
get_elem?-last [] (suc n) s e = absurd (omega arith)
get_elem?-last (x ∷ xs) zero s e = absurd (omega arith)
get_elem?-last (x ∷ xs) (suc n) s e = get_elem?-last xs n s (omega arith)

-- A fresh registry is valid and holds no site.
pub log_registry_init-IsValid : IsValid log_registry_init × (active log_registry_init ≡ [])
unfolding log_registry_init
log_registry_init-IsValid = (
  record {
    fits = record {
      allocated = length-replicate initial_capacity zero_site;
      used = omega arith;
      nonempty = omega arith;
    };
    ids = tt;
    distinct = tt;
  },
  refl,
)

module _ (ok : Bool) (r : LogRegistry) (level : ℕ) (f : List ℕ) (l : ℕ) (g : List ℕ) (n : ℕ)
    (ts : List ℕ) (pattern_text : Option (List ℕ)) where
  abbrev registered : LogRegistry × ℕ
  registered = log_registry_register ok r level f l g n ts pattern_text

  abbrev site : LogSite
  site = new_site ok r level f l g n ts pattern_text

  -- The three ends of a registration: the site was there, the array could not grow, or the site is
  -- added behind the others.
  abbrev Known : LogRegistry → ℕ → Type 0
  Known r' id = (s : LogSite) × (r' ≡ r) × (log_registry_get r id ≡ some s) × HasKey s f l g

  abbrev Refused : LogRegistry → ℕ → Type 0
  Refused r' id = (ok ≡ false) × (r' ≡ r) × (id ≡ uint32_max)

  abbrev Added : LogRegistry → ℕ → Type 0
  Added r' id = (id ≡ r.count) × IsValid r' × (active r' ≡ active r ++ (site ∷ []))

  added :
      IsValid r
      → (h : LogRegistry) → All (λ t. same_site t f l g ≡ false) (active r)
      → HasRoom r h
      → IsValid (add_site h site) × (active (add_site h site) ≡ active r ++ (site ∷ []))
  added v h fresh roomy =
      let (fits, e) = active-add_site h site roomy.fits roomy.room roomy.bounded in
      let e' : active (add_site h site) ≡ active r ++ (site ∷ []) = rw (roomy.same_active) at e in
      (
        record {
          fits = fits;
          ids =
              rw e'
                (IdsFrom-append 0 (active r) site v.ids (omega (arith, length-active r v.fits)));
          distinct = rw e' (Distinct-append (active r) site v.distinct fresh);
        },
        e',
      )

  register_cases :
      IsValid r
      → r.capacity ≤ 2 ^ 30
      → Known (registered.0) (registered.1)
        ⊎ Refused (registered.0) (registered.1)
        ⊎ Added (registered.0) (registered.1)
  unfolding log_registry_register find_existing_site
  register_cases v small =
      let bound : 0 + length (active r) ≤ uint32_max = omega (arith, length-active r v.fits) in
      elim (find_site_cases f l g 0 (active r) v.ids bound) [
        | inr (i, s, e, at_i, same, lt) ↦
            let id : find_site (active r) f l g ≡ i = omega arith in
            let known : (i == uint32_max) ≡ false = ground (arith, bound) in
            rw (id, known)
              (inl
                (s, refl, log_registry_get-active r i v.fits ∙ at_i, same_site→HasKey s f l g same))
        | inl (e, fresh) ↦ elim (grow_if_needed_lem ok r v.fits small) [
          | inl (bad, none_grown) ↦ rw (e, none_grown) (inr (inl (bad, refl, refl)))
          | inr (h, grows, roomy) ↦
              rw (e, grows) (let (valid, e') = added v h fresh roomy in inr (inr (refl, valid, e')))
        ]
      ]

  -- A registration keeps a valid registry valid, up to a capacity of 2^30 sites, past which the
  -- doubling of the capacity wraps.
  pub log_registry_register-IsValid : IsValid r → r.capacity ≤ 2 ^ 30 → IsValid (registered.0)
  log_registry_register-IsValid v small = elim (register_cases v small) [
    | inl (s, e, at_id, key) ↦ rw e v
    | inr (inl (bad, e, id)) ↦ rw e v
    | inr (inr (id, valid, e)) ↦ valid
  ]

  -- In a valid registry of at most 2^30 sites a registration returns UINT32_MAX only when the
  -- allocator refuses. Otherwise the id is that of a site with the given file, line and format
  -- string.
  pub log_registry_get-register :
      IsValid r
      → r.capacity ≤ 2 ^ 30
      → (ok ≡ false) × (registered.1 ≡ uint32_max)
        ⊎ ((s : LogSite) × (log_registry_get (registered.0) (registered.1) ≡ some s)
            × HasKey s f l g)
  log_registry_get-register v small = elim (register_cases v small) [
    | inl (s, e, at_id, key) ↦ inr (s, rw e at_id, key)
    | inr (inl (bad, e, id)) ↦ inl (bad, id)
    | inr (inr (id, valid, e)) ↦ inr (
      site,
      log_registry_get-active (registered.0) (registered.1) valid.fits
          ∙ rw (e, id) (get_elem?-last (active r) r.count site (length-active r v.fits)),
      (refl, refl, refl),
    )
  ]

  -- After a registration in a valid registry of at most 2^30 sites, the ids given out before go on
  -- naming the same sites, with all their fields.
  pub log_registry_get-register_old :
      IsValid r
      → r.capacity ≤ 2 ^ 30
      → (i : ℕ) (s : LogSite) → log_registry_get r i ≡ some s
      → log_registry_get (registered.0) i ≡ some s
  log_registry_get-register_old v small i s at_i = elim (register_cases v small) [
    | inl (t, e, at_id, key) ↦ rw e at_i
    | inr (inl (bad, e, id)) ↦ rw e at_i
    | inr (inr (id, valid, e)) ↦
        log_registry_get-active (registered.0) i valid.fits
        ∙ rw e (
            get_elem?-append (active r) (site ∷ []) i
              (sym (log_registry_get-active r i v.fits) ∙ at_i))
  ]

  -- At most one site is added.
  pub count-register : IsValid r → r.capacity ≤ 2 ^ 30 → (registered.0).count ≤ r.count + 1
  count-register v small = elim (register_cases v small) [
    | inl (s, e, at_id, key) ↦ rw e (omega arith)
    | inr (inl (bad, e, id)) ↦ rw e (omega arith)
    | inr (inr (id, valid, e)) ↦ omega (
      arith,
      length-active (registered.0) valid.fits,
      length-active r v.fits,
      ap (λ (t : List LogSite). length t) e,
      length-append (active r) (site ∷ []),
    )
  ]
