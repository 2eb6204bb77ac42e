-- ===== src/Registry/Active.antt =====
-- src/log_registry.c: the registered sites as a list, which a registration leaves alone or extends.
use cnano_log.Base.{
  ℕ, zero, suc, ◌+◌, ◌-◌, ◌*◌, ◌%◌, ◌^◌, ◌<◌, ◌≤◌, ◌≡◌, refl, ap, ◌∙◌, ◌⊎◌, inl, inr, List, [], ◌∷◌,
  ◌++◌, some, none, Bool, false, take, set, get_elem?, replicate, length, length-append,
  length-replicate, length-take, length-set, arith, Bool-cases, lt→leb_false, le→leb, dec_lt,
}
use cnano_log.Registry.{
  LogSite, LogRegistry, zero_site, active, grow_if_needed, add_site, log_registry_get,
}

take-set-suc :
    (xs : List LogSite) (n : ℕ) (s : LogSite)
    → n < length xs
    → take (suc n) (set xs n s) ≡ take n xs ++ (s ∷ [])
take-set-suc [] n s h = absurd (omega arith)
take-set-suc (x ∷ xs) zero s h = refl
take-set-suc (x ∷ xs) (suc n) s h = ap (λ r. x ∷ r) (take-set-suc xs n s (omega arith))

take_append : (n : ℕ) (xs ys : List LogSite) → n ≤ length xs → take n (xs ++ ys) ≡ take n xs
take_append zero xs ys h = refl
take_append (suc n) [] ys h = absurd (omega arith)
take_append (suc n) (x ∷ xs) ys h = ap (λ r. x ∷ r) (take_append n xs ys (omega arith))

take-take : (n m : ℕ) (xs : List LogSite) → n ≤ m → take n (take m xs) ≡ take n xs
take-take zero m xs h = refl
take-take (suc n) zero xs h = absurd (omega arith)
take-take (suc n) (suc m) [] h = refl
take-take (suc n) (suc m) (x ∷ xs) h = ap (λ r. x ∷ r) (take-take n m xs (omega arith))

get_elem?-take : (xs : List LogSite) (n i : ℕ) → i < n → get_elem? (take n xs) i ≡ get_elem? xs i
get_elem?-take xs zero i h = absurd (omega arith)
get_elem?-take [] (suc n) i h = refl
get_elem?-take (x ∷ xs) (suc n) zero h = refl
get_elem?-take (x ∷ xs) (suc n) (suc i) h = get_elem?-take xs n i (omega arith)

get_elem?-past : (xs : List LogSite) (i : ℕ) → length xs ≤ i → get_elem? xs i ≡ none
get_elem?-past [] i h = refl
get_elem?-past (x ∷ xs) zero h = absurd (omega arith)
get_elem?-past (x ∷ xs) (suc i) h = get_elem?-past xs i (omega arith)

-- The bookkeeping of the array: `sites` has `capacity` elements, of which `count` are in use. A
-- growth does not wrap as long as the capacity is at most 2^30.
pub record Fits (r : LogRegistry) : Type 0 where
  pub allocated : length r.sites ≡ r.capacity
  pub used : r.count ≤ r.capacity
  pub nonempty : 0 < r.capacity

pub length-active : (r : LogRegistry) → Fits r → length (active r) ≡ r.count
length-active r v = omega (arith, length-take r.count r.sites)

-- `log_registry_get` looks an id up among the registered sites.
pub log_registry_get-active :
    (r : LogRegistry) (i : ℕ) → Fits r → log_registry_get r i ≡ get_elem? (active r) i
unfolding log_registry_get
log_registry_get-active r i v = elim (dec_lt i r.count) [
  | yes h ↦ rw (lt→leb_false r.count i h, get_elem?-take r.sites r.count i h)
  | no h ↦ rw (
    le→leb r.count i (omega arith),
    get_elem?-past (active r) i (omega (arith, length-active r v)),
  )
]

abbrev grown : LogRegistry → LogRegistry
grown r = record r {
  sites =
      take (r.capacity * 2 % 2 ^ 32) r.sites
      ++ replicate (r.capacity * 2 % 2 ^ 32 - r.capacity) zero_site;
  capacity = r.capacity * 2 % 2 ^ 32;
}

-- What holds of a registry with room for one more site and the same registered sites as `r`.
pub record HasRoom (r g : LogRegistry) : Type 0 where
  pub fits : Fits g
  pub same_count : g.count ≡ r.count
  pub same_active : active g ≡ active r
  pub room : g.count < g.capacity
  pub bounded : g.capacity ≤ 2 ^ 31

grown-HasRoom : (r : LogRegistry) → Fits r → r.capacity ≤ 2 ^ 30 → HasRoom r (grown r)
grown-HasRoom r v small =
    let n = r.capacity * 2 % 2 ^ 32 in
    let twice : n ≡ r.capacity * 2 = omega arith in
    let kept = length-take n r.sites in
    let whole = length-append (take n r.sites) (replicate (n - r.capacity) zero_site) in
    let zeros = length-replicate (n - r.capacity) zero_site in
    record {
      fits = record {
        allocated = omega (arith, kept, whole, zeros, v);
        used = omega (arith, v);
        nonempty = omega (arith, v);
      };
      same_count = refl;
      same_active =
          take_append r.count (take n r.sites) (replicate (n - r.capacity) zero_site)
            (omega (arith, kept, v))
          ∙ take-take r.count n r.sites (omega (arith, v));
      room = omega (arith, v);
      bounded = omega arith;
    }

-- Growing fails only if the allocator refuses; otherwise it keeps the registered sites and leaves
-- room for one more.
pub grow_if_needed_lem :
    (realloc_ok : Bool) (r : LogRegistry)
    → Fits r
    → r.capacity ≤ 2 ^ 30
    → (realloc_ok ≡ false) × (grow_if_needed realloc_ok r ≡ none)
      ⊎ ((g : LogRegistry) × (grow_if_needed realloc_ok r ≡ some g) × HasRoom r g)
unfolding grow_if_needed
grow_if_needed_lem realloc_ok r v small = elim (dec_lt r.count r.capacity) [
  | yes h ↦ inr (
    r,
    rw (lt→leb_false r.capacity r.count h),
    record { fits = v; same_count = refl; same_active = refl; room = h; bounded = omega arith },
  )
  | no h ↦ elim (Bool-cases realloc_ok) [
    | inl ok ↦
        inr (grown r, rw (le→leb r.capacity r.count (omega arith), ok), grown-HasRoom r v small)
    | inr bad ↦ inl (bad, rw (le→leb r.capacity r.count (omega arith), bad))
  ]
]

-- A new site stands behind those registered before.
pub active-add_site :
    (r : LogRegistry) (s : LogSite)
    → Fits r
    → r.count < r.capacity
    → r.capacity ≤ 2 ^ 31
    → Fits (add_site r s) × (active (add_site r s) ≡ active r ++ (s ∷ []))
unfolding add_site
active-add_site r s v room bounded = (
  omega (arith, length-set r.sites r.count s),
  let e : (r.count + 1) % 2 ^ 32 ≡ suc r.count = omega arith in
      rw (e, take-set-suc r.sites r.count s (omega arith)),
)
