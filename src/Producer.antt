-- ===== src/Producer.antt =====
-- src/cnanolog.c: `_cnanolog_log_binary`, what a log call does with its thread's staging buffer.
-- The buffer of the thread, or its absence where it cannot be made, is an argument, and so are the
-- time stamp and whether the logger runs.
pub mod Laws
pub mod Drops
use cnano_log.Base.{
  ℕ, ◌+◌, ◌-◌, ◌%◌, ◌^◌, List, [], ◌∷◌, ◌++◌, Option, some, none, Bool, true, false, ◌&&◌, ◌||◌,
  not, if◌then◌else◌, ltb, ◌==◌, length,
}
use cnano_log.Base.Bytes.{le_bytes}
use cnano_log.Outcome.{Outcome, done, rejected, fault}
use cnano_log.Format.{
  ArgType, arg_none, int32, int64, uint32, uint64, double, string, pointer, char, other,
  entry_header_size,
}
use cnano_log.Registry.{uint32_max}
use cnano_log.ArgPacking.{VaArg, Packing, arg_pack_write_fast, stored_args}
use cnano_log.Staging.{StagingBuffer, staging_reserve, staging_commit, staging_adjust_reservation}
use cnano_log.Staging.Memory.{write_at}
use cnano_log.Writer.{entry_header}

abbrev pub max_log_entry_size : ℕ
max_log_entry_size = 16384

-- The `switch` of the size computation.
unfoldable pub arg_size : ArgType → ℕ
arg_size char = 1
arg_size int32 = 4
arg_size uint32 = 4
arg_size int64 = 8
arg_size uint64 = 8
arg_size double = 8
arg_size pointer = 8
arg_size string = 0
arg_size arg_none = 0
arg_size (other n) = 0

-- The loop, which a string ends; `n` is `reserve_size` before it.
unfoldable pub reserve_size : ℕ → List ArgType → ℕ
unfolding arg_size
reserve_size n [] = n
reserve_size n (string ∷ ts) = max_log_entry_size
reserve_size n (t ∷ ts) = reserve_size (n + arg_size t) ts

-- The thread's buffer and two of the statistics, which are `uint64_t`.
pub record Logger : Type 0 where
  pub sb : Option StagingBuffer
  pub total_logs : ℕ
  pub dropped_logs : ℕ

abbrev pub dropped : Logger → Logger
dropped l = record l { dropped_logs = (l.dropped_logs + 1) % 2 ^ 64 }

module _ (size : ℕ) (log_id time : ℕ) (arg_types : List ArgType) where
  -- The end of a call, with the packed arguments: the header and they are stored at `off`, an
  -- over-long reservation is cut, and the entry is committed.
  unfoldable pub finish : Logger → StagingBuffer → ℕ → ℕ → List ℕ → Logger
  finish l sb off reserved bytes =
      let actual = entry_header_size + length bytes in
      let stored = record sb {
        mem = write_at sb.mem off (entry_header log_id time (length bytes % 2 ^ 16) ++ bytes);
      } in
      let cut =
        if (reserved == max_log_entry_size) && not (actual == reserved)
        then staging_adjust_reservation size stored reserved actual
        else stored in
      record l { sb = some (staging_commit size cut actual) }

  -- What is stored in the reservation before it is known whether the arguments fit: the identifier,
  -- the time stamp, and the arguments up to the one that does not fit.
  pub begun : StagingBuffer → ℕ → ℕ → List VaArg → StagingBuffer
  begun sb off reserved args = record sb {
    mem =
        write_at (write_at sb.mem off (le_bytes 4 log_id ++ le_bytes 8 time))
          (off + entry_header_size)
          (stored_args (reserved - entry_header_size) arg_types
            (record { write_ptr = []; args = args }));
  }

  -- The whole reservation is given back.
  unfoldable pub give_back : Logger → StagingBuffer → ℕ → Logger
  give_back l sb reserved = record (dropped l) {
    sb = some (staging_adjust_reservation size sb reserved 0);
  }

  -- The call between the reservation and its end.
  unfoldable pub fill : Logger → StagingBuffer → ℕ → ℕ → List VaArg → Outcome Logger
  unfolding finish give_back begun
  fill l sb off reserved args =
      elim (arg_pack_write_fast (reserved - entry_header_size) arg_types args) [
        | done bytes ↦
            if not (length arg_types == 0) && (length bytes == 0)
            then done (give_back l (begun sb off reserved args) reserved)
            else done (finish l sb off reserved bytes)
        | rejected ↦ done (give_back l (begun sb off reserved args) reserved)
        | fault ↦ fault
      ]

  unfoldable pub log_buffer : Logger → StagingBuffer → List VaArg → Outcome Logger
  unfolding fill reserve_size
  log_buffer l sb args =
      let reserved = reserve_size entry_header_size arg_types in
      let r = staging_reserve size sb reserved in
      elim (r.0) [
        | none ↦ done (record (dropped l) { sb = some (r.1) })
        | some off ↦ fill l (r.1) off reserved args
      ]

  unfoldable pub log_binary : Bool → Logger → List VaArg → Outcome Logger
  unfolding log_buffer
  log_binary is_initialized l args =
      let counted = record l { total_logs = (l.total_logs + 1) % 2 ^ 64 } in
      if not is_initialized || (log_id == uint32_max)
      then done l
      else (elim l.sb [ none ↦ done (dropped counted) | some sb ↦ log_buffer counted sb args ])
