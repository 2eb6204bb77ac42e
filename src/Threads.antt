-- ===== src/Threads.antt =====
-- src/cnanolog.c: the threads' staging buffers and the registry in which the background thread finds
-- them. A pointer to a buffer is its index in the list of all that were created.
pub mod Laws
use cnano_log.Base.{
  ℕ, ◌+◌, ◌%◌, ◌^◌, List, [], ◌∷◌, ◌++◌, Option, none, some, Bool, true, false, if◌then◌else◌, leb,
  ◌==◌, length,
}
use cnano_log.Staging.{StagingBuffer, staging_buffer_create}

-- `buffer_registry_t`; `none` is the null pointer.
pub record BufferRegistry : Type 0 where
  pub buffers : ℕ → Option ℕ
  pub count : ℕ

abbrev pub max_staging_buffers : ℕ
max_staging_buffers = 256

abbrev pub buffer_registry_init : BufferRegistry
buffer_registry_init = record { buffers = λ i. none; count = 0 }

-- The array with a buffer stored at an index.
abbrev pub store_buffer : (ℕ → Option ℕ) → ℕ → ℕ → ℕ → Option ℕ
store_buffer buffers idx buffer i = if i == idx then some buffer else buffers i

-- `false` is the return value -1.
unfoldable pub buffer_registry_add : BufferRegistry → ℕ → Bool × BufferRegistry
buffer_registry_add registry buffer =
    let counted = record registry { count = (registry.count + 1) % 2 ^ 32 } in
    if leb max_staging_buffers registry.count
    then (false, counted)
    else (true, record counted { buffers = store_buffer registry.buffers registry.count buffer })

-- `g_buffer_registry`, `g_next_thread_id` and the buffers that were created, in order. A buffer that
-- is destroyed stays in the list, with no pointer to it.
pub record Threads : Type 0 where
  pub registry : BufferRegistry
  pub next_thread_id : ℕ
  pub created : List StagingBuffer

abbrev pub no_threads : Threads
no_threads = record { registry = buffer_registry_init; next_thread_id = 1; created = [] }

-- The new buffer's registration: what is returned, which is also the thread's pointer afterwards.
abbrev pub registered : Threads → StagingBuffer → Bool × BufferRegistry → Option ℕ × Threads
registered t sb (false, r) = (none, record t { registry = r; created = t.created ++ (sb ∷ []) })
registered t sb (true, r) =
    (some (length t.created), record t { registry = r; created = t.created ++ (sb ∷ []) })

abbrev pub register_created : Threads → Option StagingBuffer → Option ℕ × Threads
register_created t none = (none, t)
register_created t (some sb) = registered t sb (buffer_registry_add t.registry (length t.created))

module _ (size : ℕ) where
  -- The thread's pointer is given, and returned as it is afterwards.
  unfoldable pub get_or_create_staging_buffer : Bool → Option ℕ → Threads → Option ℕ × Threads
  get_or_create_staging_buffer alloc_ok (some buffer) t = (some buffer, t)
  get_or_create_staging_buffer alloc_ok none t =
      register_created (record t { next_thread_id = (t.next_thread_id + 1) % 2 ^ 32 })
        (staging_buffer_create size alloc_ok t.next_thread_id)
