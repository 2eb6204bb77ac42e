-- ===== src/Tests/Threads.antt =====
-- The registry of the threads' buffers with one thread, and with more threads than slots.
use cnano_log.Base.{length, if◌then◌else◌, ltb, ◌&&◌, ℕ, ◌≡◌, Option, none, some, true, arith}
use cnano_log.Threads.{max_staging_buffers, no_threads, get_or_create_staging_buffer}
use cnano_log.Threads.Laws.{
  IsValid, IsHeld, started, get_or_create_staging_buffer-IsValid,
  get_or_create_staging_buffer-overcounts,
}

no_threads-IsValid : IsValid no_threads
no_threads-IsValid = record {
  stored = λ i a e. absurd cc;
  filled = λ i h. absurd (omega arith);
  own = λ i j a e. absurd cc;
}

get_or_create_staging_buffer-IsValid_example :
    IsValid ((get_or_create_staging_buffer 256 true none no_threads).1)
    × IsHeld
        ((get_or_create_staging_buffer 256 true none no_threads).1)
        ((get_or_create_staging_buffer 256 true none no_threads).0)
    × ((q : Option ℕ)
        → IsHeld no_threads q
        → IsHeld ((get_or_create_staging_buffer 256 true none no_threads).1) q)
get_or_create_staging_buffer-IsValid_example =
    get_or_create_staging_buffer-IsValid 256 true none no_threads no_threads-IsValid
      (λ a e. absurd cc) (omega arith)

get_or_create_staging_buffer-overcounts_example :
    ((started 256 300).registry.count ≡ 300)
    × (length (started 256 300).created ≡ 300)
    × ((started 256 300).registry.buffers 260
        ≡ (if ltb 260 300 && ltb 260 max_staging_buffers then some 260 else none))
get_or_create_staging_buffer-overcounts_example =
    get_or_create_staging_buffer-overcounts 256 300 260 (omega arith)
