-- ===== src/Consumer.antt =====
-- src/cnanolog.c: `writer_thread_main`, the background thread, in binary mode. The thread's own
-- buffers of 16384 bytes are checked: a copy that would not fit is a `fault`, and so is a
-- compression that reads behind the entry's argument data. During a round of the loop over one
-- buffer, the producer of that buffer is taken to make no step.
pub mod Rounds
pub mod Pending
pub mod Compressed
pub mod Batches
pub mod Drain
use cnano_log.Base.{
  ℕ, zero, suc, ◌+◌, ◌-◌, ◌*◌, ◌^◌, ◌%◌, ◌/◌, List, [], ◌∷◌, ◌++◌, Option, none, some, Bool, true,
  false, ◌&&◌, ◌||◌, not, if◌then◌else◌, ltb, leb, ◌==◌, length, take, drop, get_elem?, set,
}
use cnano_log.Base.Bytes.{le_value}
use cnano_log.Outcome.{Outcome, done, rejected, fault, ◌>>=◌}
use cnano_log.Format.{entry_header_size}
use cnano_log.Registry.{LogRegistry, LogSite, log_registry_get}
use cnano_log.Compressor.{compress_entry_args}
use cnano_log.Staging.{
  StagingBuffer, wrap_marker_log_id, staging_available, staging_read, staging_consume,
  staging_wrap_read_pos,
}
use cnano_log.Producer.{max_log_entry_size}
use cnano_log.Writer
use cnano_log.Writer.{Writer, Status, ok, failed, binwriter_write_entry, binwriter_flush}

-- `temp_buf` read as a `cnanolog_entry_header_t`.
unfoldable pub header_log_id : List ℕ → ℕ
header_log_id temp_buf = le_value (take 4 temp_buf)

unfoldable pub header_timestamp : List ℕ → ℕ
header_timestamp temp_buf = le_value (take 8 (drop 4 temp_buf))

unfoldable pub header_data_length : List ℕ → ℕ
header_data_length temp_buf = le_value (take 2 (drop 12 temp_buf))

-- What a round of the inner loop does: end the loop, follow a wrap marker, or write an entry.
pub data Round (W : Type 0) : Type 0 where
  stopped : Round W
  wrapped : StagingBuffer → Round W
  written : W → StagingBuffer → Round W

-- The state of the inner loop.
pub record Batch (W : Type 0) : Type 0 where
  pub writer : W
  pub sb : StagingBuffer
  pub batch_count : ℕ

-- `write_entry` is what the branch on the output format does with an entry: its log id, its timestamp
-- and its argument data.
module _ {W : Type 0} (size : ℕ) (write_entry : ℕ → ℕ → List ℕ → W → Outcome W) where
  -- A whole entry of `entry_size` bytes.
  unfoldable pub take_entry : ℕ → W → StagingBuffer → Outcome (Round W)
  take_entry entry_size w sb =
      let temp_buf = staging_read size sb entry_size in
      if ltb (staging_available size sb) entry_size
      then done stopped
      else if ltb max_log_entry_size entry_size
      then fault
      else if ltb (length temp_buf) entry_size
      then done stopped
      else (write_entry (header_log_id temp_buf) (header_timestamp temp_buf)
            (drop entry_header_size temp_buf) w
          >>= λ w'. done (written w' (staging_consume size sb entry_size)))

  unfoldable pub round : W → StagingBuffer → Outcome (Round W)
  unfolding take_entry
  round w sb =
      let temp_buf = staging_read size sb entry_header_size in
      if ltb (staging_available size sb) entry_header_size
      then done stopped
      else if ltb (length temp_buf) entry_header_size
      then done stopped
      else if header_log_id temp_buf == wrap_marker_log_id
      then done (wrapped (staging_wrap_read_pos size (staging_consume size sb entry_header_size)))
      else take_entry (entry_header_size + header_data_length temp_buf) w sb

  -- How the inner loop goes on after a round.
  abbrev pub after_round :
      (StagingBuffer → Option (Outcome (Batch W)))
      → (W → StagingBuffer → Option (Outcome (Batch W)))
      → Batch W
      → Outcome (Round W)
      → Option (Outcome (Batch W))
  after_round on_wrap on_entry b fault = some fault
  after_round on_wrap on_entry b rejected = some rejected
  after_round on_wrap on_entry b (done stopped) = some (done b)
  after_round on_wrap on_entry b (done (wrapped sb)) = on_wrap sb
  after_round on_wrap on_entry b (done (written w sb)) = on_entry w sb

  -- The inner loop with `room` entries left of the batch; a wrap marker does not count as one. `none`
  -- is the fuel's end.
  unfoldable pub batch_loop : ℕ → ℕ → Batch W → Option (Outcome (Batch W))
  unfolding round
  batch_loop fuel zero b = some (done b)
  batch_loop zero (suc room) b = none
  batch_loop (suc fuel) (suc room) b =
      after_round (λ sb. batch_loop fuel (suc room) (record b { sb = sb }))
        (λ w sb.
          batch_loop fuel room (record { writer = w; sb = sb; batch_count = b.batch_count + 1 }))
        b (round b.writer b.sb)

abbrev pub batch_process_size : ℕ
batch_process_size = 1000

-- The binary writer and the two counters of the statistics that the thread keeps.
pub record Output : Type 0 where
  pub binary_writer : Writer
  pub bytes_compressed_from : ℕ
  pub bytes_compressed_to : ℕ

-- The result of `binwriter_write_entry` is not looked at.
abbrev pub writer_after : Status → Writer
writer_after (ok w) = w
writer_after (failed w) = w

-- Compressed argument data, in `compressed_buf`.
unfoldable pub write_compressed : ℕ → ℕ → List ℕ → Output → Option (List ℕ) → Outcome Output
write_compressed log_id timestamp args o none = fault
write_compressed log_id timestamp args o (some c) =
    if ltb max_log_entry_size (length c)
    then fault
    else done (record {
      binary_writer =
          writer_after
            (binwriter_write_entry o.binary_writer log_id timestamp c (length c % 2 ^ 16));
      bytes_compressed_from = (o.bytes_compressed_from + length args) % 2 ^ 64;
      bytes_compressed_to = (o.bytes_compressed_to + length c) % 2 ^ 64;
    })

-- Argument data that are written as they are.
unfoldable pub write_plain : ℕ → ℕ → List ℕ → Output → Output
write_plain log_id timestamp args o = record o {
  binary_writer =
      writer_after (binwriter_write_entry o.binary_writer log_id timestamp args (length args));
}

-- The branch of the binary mode.
unfoldable pub write_binary : LogRegistry → ℕ → ℕ → List ℕ → Output → Outcome Output
unfolding write_compressed write_plain
write_binary registry log_id timestamp args o = elim (log_registry_get registry log_id) [
  | none ↦ done (write_plain log_id timestamp args o)
  | some site ↦
      if ltb 0 site.num_args
      then write_compressed log_id timestamp args o (compress_entry_args args site)
      else done (write_plain log_id timestamp args o)
]
