-- ===== src/Threads/Laws.antt =====
-- src/cnanolog.c: what the registry of the threads' staging buffers holds.
use cnano_log.Base.{
  zero, suc, ltb, leb→le, ◌&&◌, if◌then◌else◌, List, ◌++◌, ℕ, ◌+◌, ◌%◌, ◌^◌, ◌<◌, ◌≤◌, ◌≡◌, ◌≢◌,
  refl, ◌∙◌, sym, [], ◌∷◌, Option, none, some, Bool, true, false, Bool-cases, ◌⊎◌, inl, inr, leb,
  ◌==◌, ==_refl, ==_ne, length, length-append, arith,
}
use cnano_log.Staging.{StagingBuffer, staging_buffer_create}
use cnano_log.Threads.{
  max_staging_buffers, store_buffer, buffer_registry_add, Threads, no_threads, registered,
  get_or_create_staging_buffer,
}

-- The slots below the count and the limit hold buffers that were created, each its own; the others
-- are null.
pub record IsValid (t : Threads) : Type 0 where
  pub stored :
      (i a : ℕ) → t.registry.buffers i ≡ some a → (i < t.registry.count) × (a < length t.created)
  pub filled :
      (i : ℕ) → i < t.registry.count → i < max_staging_buffers → ¬ (t.registry.buffers i ≡ none)
  pub own : (i j a : ℕ) → t.registry.buffers i ≡ some a → t.registry.buffers j ≡ some a → i ≡ j

-- A pointer that is not null is in the registry.
abbrev pub IsHeld : Threads → Option ℕ → Type 0
IsHeld t p = (a : ℕ) → p ≡ some a → (i : ℕ) × (t.registry.buffers i ≡ some a)

pub store_buffer_same : (f : ℕ → Option ℕ) (k b : ℕ) → store_buffer f k b k ≡ some b
store_buffer_same f k b = rw (==_refl k) refl

pub store_buffer_other : (f : ℕ → Option ℕ) (k b i : ℕ) → ¬ (i ≡ k) → store_buffer f k b i ≡ f i
store_buffer_other f k b i h = rw (==_ne i k h) refl

-- What a slot holds after a store comes from it, or was there.
store_buffer_cases :
    (f : ℕ → Option ℕ) (k b i a : ℕ)
    → store_buffer f k b i ≡ some a
    → ((i ≡ k) × (a ≡ b)) ⊎ (f i ≡ some a)
store_buffer_cases f k b i a e = elim (Bool-cases (i == k)) [
  | inl same ↦
      let here : store_buffer f k b i ≡ some b = rw same refl in
      let found : some b ≡ some a = sym here ∙ e in inl (ground (arith, same), cc)
  | inr other ↦ inr (sym (rw other refl) ∙ e)
]

store_own :
    (t : Threads)
    → IsValid t
    → (i j a : ℕ) → store_buffer t.registry.buffers t.registry.count (length t.created) i ≡ some a
    → store_buffer t.registry.buffers t.registry.count (length t.created) j ≡ some a
    → i ≡ j
store_own t v i j a e f =
    let cases = store_buffer_cases t.registry.buffers t.registry.count (length t.created) in
    elim (cases i a e) [
      | inl (p, q) ↦ elim (cases j a f) [
        | inl (p', q') ↦ p ∙ sym p'
        | inr old ↦ absurd (omega (arith, (v.stored j a old).1))
      ]
      | inr old ↦ elim (cases j a f) [
        | inl (p', q') ↦ absurd (omega (arith, (v.stored i a old).1))
        | inr old' ↦ v.own i j a old old'
      ]
    ]

store_filled :
    (t : Threads)
    → IsValid t
    → (i : ℕ) → i ≤ t.registry.count
    → i < max_staging_buffers
    → ¬ (store_buffer t.registry.buffers t.registry.count (length t.created) i ≡ none)
store_filled t v i below limit = elim (Bool-cases (i == t.registry.count)) [
  | inl same ↦ rw same (λ e. cc)
  | inr other ↦ rw other (v.filled i (ground (arith, other)) limit)
]

-- One more buffer is created, and its pointer is stored where the registry has a slot.
add-IsValid :
    (t : Threads) (sb : StagingBuffer)
    → IsValid t
    → t.registry.count + 1 < 2 ^ 32
    → IsValid ((registered t sb (buffer_registry_add t.registry (length t.created))).1)
unfolding buffer_registry_add
add-IsValid t sb v small = elim (Bool-cases (leb max_staging_buffers t.registry.count)) [
  | inl full ↦ rw full (record {
    stored = λ i a e.
        let (p, q) = v.stored i a e in
        (omega (arith, small), omega (arith, length-append t.created (sb ∷ [])));
    filled = λ i below limit. v.filled i (ground (arith, full)) limit;
    own = v.own;
  })
  | inr room ↦ rw room (record {
    stored = λ i a e.
        elim (store_buffer_cases t.registry.buffers t.registry.count (length t.created) i a e) [
          | inl (p, q) ↦ (omega (arith, small), omega (arith, length-append t.created (sb ∷ [])))
          | inr old ↦
              let (p, q) = v.stored i a old in
              (omega (arith, small), omega (arith, length-append t.created (sb ∷ [])))
        ];
    filled = λ i below limit. store_filled t v i (omega (arith, below)) limit;
    own = λ i j a e f. store_own t v i j a e f;
  })
]

add-IsHeld :
    (t : Threads) (sb : StagingBuffer)
    → IsHeld
        ((registered t sb (buffer_registry_add t.registry (length t.created))).1)
        ((registered t sb (buffer_registry_add t.registry (length t.created))).0)
unfolding buffer_registry_add
add-IsHeld t sb = elim (Bool-cases (leb max_staging_buffers t.registry.count)) [
  | inl full ↦ rw full (λ a e. absurd cc)
  | inr room ↦ rw room (λ a e. (
    t.registry.count,
    store_buffer_same t.registry.buffers t.registry.count (length t.created) ∙ e,
  ))
]

add-keeps :
    (t : Threads) (sb : StagingBuffer)
    → IsValid t
    → (p : Option ℕ) → IsHeld t p
    → IsHeld ((registered t sb (buffer_registry_add t.registry (length t.created))).1) p
unfolding buffer_registry_add
add-keeps t sb v p held = elim (Bool-cases (leb max_staging_buffers t.registry.count)) [
  | inl full ↦ rw full held
  | inr room ↦ rw room (λ a e.
      let (i, at) = held a e in
      let older = (v.stored i a at).0 in
      (
        i,
        store_buffer_other t.registry.buffers t.registry.count (length t.created) i
              (λ q. omega (arith, older, q))
            ∙ at,
      ))
]

-- A state in which only the thread counter has moved.
counted-IsValid : (t : Threads) (n : ℕ) → IsValid t → IsValid (record t { next_thread_id = n })
counted-IsValid t n v = record { stored = v.stored; filled = v.filled; own = v.own }

-- A thread that asks for its buffer leaves the registry valid: each slot in use holds one of the
-- buffers that were created, and no two slots the same. The pointer the thread gets, unless it is
-- null, is in the registry, and so are the pointers that were there before. The registry was valid,
-- the thread's pointer was null or in the registry, and fewer than 2^32 - 1 threads were counted.
pub get_or_create_staging_buffer-IsValid :
    (size : ℕ) (alloc_ok : Bool) (p : Option ℕ) (t : Threads)
    → IsValid t
    → IsHeld t p
    → t.registry.count + 1 < 2 ^ 32
    → IsValid ((get_or_create_staging_buffer size alloc_ok p t).1)
      × IsHeld
          ((get_or_create_staging_buffer size alloc_ok p t).1)
          ((get_or_create_staging_buffer size alloc_ok p t).0)
      × ((q : Option ℕ)
          → IsHeld t q
          → IsHeld ((get_or_create_staging_buffer size alloc_ok p t).1) q)
unfolding get_or_create_staging_buffer staging_buffer_create
get_or_create_staging_buffer-IsValid size alloc_ok (some buffer) t v held small =
    (v, held, λ q h. h)
get_or_create_staging_buffer-IsValid size false none t v held small =
    (counted-IsValid t ((t.next_thread_id + 1) % 2 ^ 32) v, (λ a e. absurd cc), λ q h. h)
get_or_create_staging_buffer-IsValid size true none t v held small =
    let t' : Threads = record t { next_thread_id = (t.next_thread_id + 1) % 2 ^ 32 } in
    let v' = counted-IsValid t ((t.next_thread_id + 1) % 2 ^ 32) v in
    (add-IsValid t' _ v' small, add-IsHeld t' _, add-keeps t' _ v')

-- As many threads as there are, each asking for its first buffer, and all allocations succeeding.
pub started : ℕ → ℕ → Threads
started size zero = no_threads
started size (suc n) = (get_or_create_staging_buffer size true none (started size n)).1

-- What a slot should hold after `n` threads: the threads' buffers in order, up to the limit.
abbrev pub slot : ℕ → ℕ → Option ℕ
slot n i = if ltb i n && ltb i max_staging_buffers then some i else none

slot_full : (n i : ℕ) → max_staging_buffers ≤ n → slot n i ≡ slot (suc n) i
slot_full n i h = ground arith

slot_last : (n : ℕ) → n < max_staging_buffers → slot (suc n) n ≡ some n
slot_last n h = ground arith

slot_older : (n i : ℕ) → i ≢ n → slot n i ≡ slot (suc n) i
slot_older n i h = ground arith

slot_room :
    (n i : ℕ) (f : ℕ → Option ℕ)
    → n < max_staging_buffers
    → f i ≡ slot n i
    → store_buffer f n n i ≡ slot (suc n) i
slot_room n i f h e = elim (Bool-cases (i == n)) [
  | inl same ↦ let i_n : i ≡ n = ground (arith, same) in rw (same, i_n) (sym (slot_last n h))
  | inr other ↦ rw other (e ∙ slot_older n i (ground (arith, other)))
]

one_more :
    {n : ℕ} (sbs : List StagingBuffer) (sb : StagingBuffer)
    → length sbs ≡ n
    → length (sbs ++ (sb ∷ [])) ≡ suc n
one_more sbs sb e = omega (arith, e, length-append sbs (sb ∷ []))

started_once :
    (size n i : ℕ) (t : Threads)
    → t.registry.count ≡ n
    → length t.created ≡ n
    → n + 1 < 2 ^ 32
    → t.registry.buffers i ≡ slot n i
    → (let t' = (get_or_create_staging_buffer size true none t).1 in
        (t'.registry.count ≡ suc n)
        × (length t'.created ≡ suc n)
        × (t'.registry.buffers i ≡ slot (suc n) i))
unfolding get_or_create_staging_buffer staging_buffer_create buffer_registry_add
started_once size n i t c l small e = elim (Bool-cases (leb max_staging_buffers n)) [
  | inl full ↦
      rw (c, full)
        (
          omega (arith, small),
          one_more t.created _ l,
          e ∙ slot_full n i (leb→le max_staging_buffers n full),
        )
  | inr room ↦
      rw (c, room)
        (
          omega (arith, small),
          one_more t.created _ l,
          rw l (slot_room n i t.registry.buffers (ground (arith, room)) e),
        )
]

-- After `n` threads have asked for their first buffers, and the allocations succeeded, the count of
-- the registry is `n`, also beyond its 256 slots, and the slots hold the first 256 buffers, in the
-- order of the threads, and no other. There are fewer than 2^32 threads.
pub get_or_create_staging_buffer-overcounts :
    (size n i : ℕ)
    → n < 2 ^ 32
    → ((started size n).registry.count ≡ n)
      × (length (started size n).created ≡ n)
      × ((started size n).registry.buffers i
          ≡ (if ltb i n && ltb i max_staging_buffers then some i else none))
unfolding started
get_or_create_staging_buffer-overcounts size zero i h = (refl, refl, ground arith)
get_or_create_staging_buffer-overcounts size (suc n) i h =
    let (c, l, e) = get_or_create_staging_buffer-overcounts size n i (omega arith) in
    started_once size n i (started size n) c l (omega arith) e
