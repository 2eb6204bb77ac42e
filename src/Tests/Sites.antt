-- ===== src/Tests/Sites.antt =====
-- The registry after two registrations.
use cnano_log.Base.{ℕ, ◌^◌, ◌≤◌, ◌≡◌, ◌≢◌, refl, ◌⊎◌, List, [], ◌∷◌, some, none, true, false, arith}
use cnano_log.Registry.{
  LogSite, LogRegistry, uint32_max, log_registry_init, log_registry_register, log_registry_get,
  find_site, find_existing_site, grow_if_needed, add_site, new_site,
}
use cnano_log.Registry.Laws.{HasKey, IsValid}
use cnano_log.Registry.Register.{
  log_registry_init-IsValid, log_registry_register-IsValid, log_registry_get-register,
  log_registry_get-register_old,
}
use cnano_log.Registry.Unique.{log_registry_register-again}

abbrev main_c : List ℕ
main_c = 109 ∷ (46 ∷ (99 ∷ []))

abbrev hello : List ℕ
hello = 104 ∷ (37 ∷ (100 ∷ []))

-- Registering the line 10, and then the line 20, of the same file.
abbrev first : LogRegistry × ℕ
first = log_registry_register true log_registry_init 0 main_c 10 hello 1 (1 ∷ []) none

abbrev second : LogRegistry × ℕ
second = log_registry_register true (first.0) 0 main_c 20 hello 1 (1 ∷ []) none

init-capacity : log_registry_init.capacity ≤ 2 ^ 30
unfolding log_registry_init
init-capacity = omega arith

first-IsValid : IsValid (first.0)
first-IsValid =
    log_registry_register-IsValid true log_registry_init 0 main_c 10 hello 1 (1 ∷ []) none
      (log_registry_init-IsValid.0) init-capacity

first-capacity : (first.0).capacity ≤ 2 ^ 30
unfolding log_registry_init log_registry_register find_existing_site find_site grow_if_needed
    add_site
first-capacity = omega arith

abbrev first_site : LogSite
first_site = new_site true log_registry_init 0 main_c 10 hello 1 (1 ∷ []) none

get-first : log_registry_get (first.0) 0 ≡ some first_site
unfolding log_registry_init log_registry_register find_existing_site find_site grow_if_needed
    add_site log_registry_get
get-first = refl

get-first_id : log_registry_get (first.0) (first.1) ≡ some first_site
unfolding log_registry_init log_registry_register find_existing_site find_site grow_if_needed
    add_site log_registry_get
get-first_id = refl

log_registry_get-register_old_example : log_registry_get (second.0) 0 ≡ some first_site
log_registry_get-register_old_example =
    log_registry_get-register_old true (first.0) 0 main_c 20 hello 1 (1 ∷ []) none first-IsValid
      first-capacity 0 first_site get-first

log_registry_register-IsValid_example : IsValid (second.0)
log_registry_register-IsValid_example =
    log_registry_register-IsValid true (first.0) 0 main_c 20 hello 1 (1 ∷ []) none first-IsValid
      first-capacity

log_registry_get-register_example :
    (true ≡ false) × (second.1 ≡ uint32_max)
    ⊎ ((s : LogSite) × (log_registry_get (second.0) (second.1) ≡ some s) × HasKey s main_c 20 hello)
log_registry_get-register_example =
    log_registry_get-register true (first.0) 0 main_c 20 hello 1 (1 ∷ []) none first-IsValid
      first-capacity

first-id : first.1 ≡ 0
unfolding log_registry_init log_registry_register find_existing_site find_site grow_if_needed
    add_site
first-id = refl

first-given : first.1 ≢ uint32_max
first-given e = omega (arith, first-id)

log_registry_register-again_example :
    log_registry_register false (first.0) 3 main_c 10 hello 0 [] none ≡ first
log_registry_register-again_example =
    log_registry_register-again true false log_registry_init 0 3 main_c 10 hello 1 0 (1 ∷ []) []
      none none (log_registry_init-IsValid.0) init-capacity first-given
