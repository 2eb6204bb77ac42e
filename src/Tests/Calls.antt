-- ===== src/Tests/Calls.antt =====
-- Log calls: one integer on an empty buffer, and a string that is too long.
use cnano_log.Base.{
  ◌-◌, ◌<◌, length-append, ℕ, ◌+◌, ◌%◌, ◌^◌, ◌≤◌, ◌≡◌, ◌⊎◌, refl, List, [], ◌∷◌, ◌++◌, some, true,
  arith, length, length-replicate, replicate, All,
}
use cnano_log.Base.Bytes.{le_bytes}
use cnano_log.Outcome.{done}
use cnano_log.Args.{int32, kind_type, width}
use cnano_log.Args.{Arg, scalar, text, encode_args, IsArg, types}
use cnano_log.ArgPacking.Laws.{va_list}
use cnano_log.Staging.{StagingBuffer}
use cnano_log.Staging.Queue.{IsLinear, pending}
use cnano_log.Staging.Memory.{slice}
use cnano_log.Writer.{entry_header}
use cnano_log.Producer.{Logger, arg_size, reserve_size, max_log_entry_size, log_binary}
use cnano_log.Producer.Drops.{log_binary-dropped}
use cnano_log.Producer.Laws.{HasText, reserve_size_lem, Published, log_binary-Published}

abbrev buffer : StagingBuffer
buffer = record {
  write_pos = 0;
  committed = 0;
  read_pos = 0;
  thread_id = 7;
  active = 1;
  mem = replicate 256 0;
}

buffer-IsLinear : IsLinear 256 buffer
buffer-IsLinear = omega (arith, length-replicate {A = ℕ} 256 0)

abbrev logger : Logger
logger = record { sb = some buffer; total_logs = 4; dropped_logs = 1 }

abbrev args : List Arg
args = scalar int32 42 ∷ []

args-IsArg : All IsArg args
unfolding width
args-IsArg = (omega arith, tt)

args-fit : 14 + length (encode_args args) ≤ reserve_size 14 (types args)
unfolding width le_bytes reserve_size arg_size kind_type
args-fit = omega arith

args-room : reserve_size 14 (types args) ≤ 256
unfolding reserve_size arg_size kind_type
args-room = omega arith

log_binary-Published_example :
    (l' : Logger) × (log_binary 256 5 1000 (types args) true logger (va_list args) ≡ done l')
    × Published 256 buffer
        (entry_header 5 1000 (length (encode_args args) % 2 ^ 16) ++ encode_args args)
        l'.sb
    × (l'.total_logs ≡ 5)
    × (l'.dropped_logs ≡ 1)
log_binary-Published_example =
    log_binary-Published 256 5 1000 logger buffer args refl buffer-IsLinear refl
      (λ e. omega (arith, e)) args-IsArg args-fit args-room

reserve_size_lem_example :
    HasText (text [] ∷ args) × (reserve_size 14 (types (text [] ∷ args)) ≡ max_log_entry_size)
    ⊎ (reserve_size 14 (types (text [] ∷ args)) ≡ 14 + length (encode_args (text [] ∷ args)))
reserve_size_lem_example = reserve_size_lem 14 (text [] ∷ args)

-- A string of 20000 bytes, on an empty buffer of 32768.
unfoldable long_text : List ℕ
long_text = replicate 20000 65

length-long_text : length long_text ≡ 20000
unfolding long_text
length-long_text = length-replicate {A = ℕ} 20000 65

unfoldable large_mem : List ℕ
large_mem = replicate 32768 0

length-large_mem : length large_mem ≡ 32768
unfolding large_mem
length-large_mem = length-replicate {A = ℕ} 32768 0

abbrev large : StagingBuffer
large = record buffer { mem = large_mem }

large-IsLinear : IsLinear 32768 large
large-IsLinear = omega (arith, length-large_mem)

abbrev long_args : List Arg
long_args = text long_text ∷ []

long_args-IsArg : All IsArg long_args
long_args-IsArg = (omega (arith, length-long_text), tt)

long_args-long : reserve_size 14 (types long_args) < 14 + length (encode_args long_args)
unfolding reserve_size
long_args-long = omega (
  arith,
  length-long_text,
  length-append (le_bytes 4 (length long_text)) long_text,
  length-append (le_bytes 4 (length long_text) ++ long_text) [],
)

long_args-room : reserve_size 14 (types long_args) ≤ 32768
unfolding reserve_size
long_args-room = omega arith

log_binary-dropped_example :
    (m : List ℕ) × (log_binary 32768 5 1000
        (types long_args)
        true
        (record logger { sb = some large })
        (va_list long_args)
      ≡ done (record { sb = some (record large { mem = m }); total_logs = 5; dropped_logs = 2 }))
    × (length m ≡ length large.mem)
    × (pending (record large { mem = m }) ≡ pending large)
    × (slice m 0 large.write_pos ≡ slice large.mem 0 large.write_pos)
    × (let end_ = large.write_pos + reserve_size 14 (types long_args) in
        slice m end_ (32768 - end_) ≡ slice large.mem end_ (32768 - end_))
log_binary-dropped_example =
    log_binary-dropped 32768 5 1000 (record logger { sb = some large }) large long_args refl
      large-IsLinear (λ e. omega (arith, e)) long_args-IsArg long_args-long long_args-room
