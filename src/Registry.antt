-- ===== src/Registry.antt =====
-- src/log_registry.c and src/log_registry.h: the registry of log call sites. Its mutex makes each
-- operation one step, so an operation is a function of the registry. `realloc_ok` says whether the
-- allocator grants the growth that a registration may ask for.
pub mod Active
pub mod Laws
pub mod Register
pub mod Unique
use cnano_log.Base.{
  ℕ, ◌+◌, ◌-◌, ◌*◌, ◌%◌, ◌^◌, List, [], ◌∷◌, ◌++◌, Option, some, none, Bool, true, false, ◌&&◌,
  if◌then◌else◌, leb, ◌==◌, take, set, get_elem?, replicate, map,
}
use cnano_log.Format.{ArgType, arg_none, of_code, max_args}

-- `log_site_t`. A C string is the list of its bytes, without the terminator.
pub record LogSite : Type 0 where
  pub log_id : ℕ
  pub log_level : ℕ
  pub filename : List ℕ
  pub format : List ℕ
  pub line_number : ℕ
  pub num_args : ℕ
  pub arg_types : List ArgType
  pub text_pattern : Option (List ℕ)

-- What the loops `for (i = 0; i < num_args; i++)` read of `arg_types`.
abbrev pub used_types : LogSite → List ArgType
used_types site = take site.num_args site.arg_types

-- `log_registry_t`: `sites` is the allocated array, of `capacity` elements.
pub record LogRegistry : Type 0 where
  pub sites : List LogSite
  pub count : ℕ
  pub capacity : ℕ

-- An element that `calloc` or `memset` cleared.
abbrev pub zero_site : LogSite
zero_site = record {
  log_id = 0;
  log_level = 0;
  filename = [];
  format = [];
  line_number = 0;
  num_args = 0;
  arg_types = replicate max_args arg_none;
  text_pattern = none;
}

abbrev pub uint32_max : ℕ
uint32_max = 2 ^ 32 - 1

abbrev pub initial_capacity : ℕ
initial_capacity = 64

-- The source does not test the result of `calloc`; here it succeeds.
unfoldable pub log_registry_init : LogRegistry
log_registry_init = record {
  sites = replicate initial_capacity zero_site;
  count = 0;
  capacity = initial_capacity;
}

-- `strcmp(a, b) == 0`
unfoldable pub str_eq : List ℕ → List ℕ → Bool
str_eq [] [] = true
str_eq [] (b ∷ t) = false
str_eq (a ∷ s) [] = false
str_eq (a ∷ s) (b ∷ t) = a == b && str_eq s t

unfoldable pub same_site : LogSite → List ℕ → ℕ → List ℕ → Bool
same_site site filename line_number format =
    site.line_number == line_number && (str_eq site.filename filename && str_eq site.format format)

-- The loop of `find_existing_site` over the elements before `count`.
unfoldable pub find_site : List LogSite → List ℕ → ℕ → List ℕ → ℕ
find_site [] filename line_number format = uint32_max
find_site (s ∷ ss) filename line_number format =
    if same_site s filename line_number format
    then s.log_id
    else find_site ss filename line_number format

abbrev pub active : LogRegistry → List LogSite
active r = take r.count r.sites

unfoldable pub find_existing_site : LogRegistry → List ℕ → ℕ → List ℕ → ℕ
find_existing_site r = find_site (active r)

unfoldable pub grow_if_needed : Bool → LogRegistry → Option LogRegistry
grow_if_needed realloc_ok r =
    if leb r.capacity r.count
    then (let new_capacity = r.capacity * 2 % 2 ^ 32 in
        if realloc_ok
        then some (record r {
          sites = take new_capacity r.sites ++ replicate (new_capacity - r.capacity) zero_site;
          capacity = new_capacity;
        })
        else none)
    else some r

-- The types of a new site: those given, then ARG_TYPE_NONE up to CNANOLOG_MAX_ARGS.
unfoldable pub copy_types : ℕ → List ℕ → List ArgType
copy_types num_args arg_types =
    map of_code (take num_args arg_types) ++ replicate (max_args - num_args) arg_none

-- The element at `count` is filled in and `count` goes up by one.
unfoldable pub add_site : LogRegistry → LogSite → LogRegistry
add_site r site = record r { sites = set r.sites r.count site; count = (r.count + 1) % 2 ^ 32 }

module _ (realloc_ok : Bool) (r : LogRegistry) (level : ℕ) (filename : List ℕ) (line_number : ℕ)
    (format : List ℕ) (num_args : ℕ) (arg_types : List ℕ) (text_pattern : Option (List ℕ)) where
  abbrev pub new_site : LogSite
  new_site = record {
    log_id = r.count;
    log_level = level;
    filename = filename;
    format = format;
    line_number = line_number;
    num_args = num_args;
    arg_types = copy_types num_args arg_types;
    text_pattern = text_pattern;
  }

  -- The registry afterwards and the id.
  unfoldable pub log_registry_register : LogRegistry × ℕ
  log_registry_register =
      if find_existing_site r filename line_number format == uint32_max
      then (elim (grow_if_needed realloc_ok r) [
        | none ↦ (r, uint32_max)
        | some r' ↦ (add_site r' new_site, r.count)
      ])
      else (r, find_existing_site r filename line_number format)

unfoldable pub log_registry_get : LogRegistry → ℕ → Option LogSite
log_registry_get r log_id = if leb r.count log_id then none else get_elem? r.sites log_id

abbrev pub log_registry_count : LogRegistry → ℕ
log_registry_count r = r.count

-- The array and the number that goes through `out_count`.
abbrev pub log_registry_get_all : LogRegistry → List LogSite × ℕ
log_registry_get_all r = (r.sites, r.count)

-- NULL is the empty array.
unfoldable pub log_registry_destroy : LogRegistry → LogRegistry
log_registry_destroy r = record { sites = []; count = 0; capacity = 0 }
