-- ===== src/Shutdown.antt =====
-- src/cnanolog.c: `cnanolog_shutdown`, once the background thread has ended: what is left in a staging
-- buffer is drained. `stale` is what the 16384 bytes of the function's buffer hold behind the bytes
-- that are read into it.
pub mod Loss
use cnano_log.Base.{
  ℕ, zero, suc, ◌+◌, List, [], ◌∷◌, ◌++◌, Option, none, some, if◌then◌else◌, ltb, ◌==◌, length,
  take, drop,
}
use cnano_log.Outcome.{Outcome, done, rejected, fault, ◌>>=◌}
use cnano_log.Format.{entry_header_size}
use cnano_log.Staging.{
  StagingBuffer, wrap_marker_log_id, staging_available, staging_read, staging_consume,
  staging_wrap_read_pos,
}
use cnano_log.Producer.{max_log_entry_size}
use cnano_log.Consumer.{header_log_id, header_timestamp, header_data_length}

module _ {W : Type 0} (size : ℕ) (stale : List ℕ)
    (write_entry : ℕ → ℕ → List ℕ → W → Outcome W) where
  -- The entry at the start of `temp_buf`, which is written as it stands.
  unfoldable pub drain_entry : List ℕ → W → Outcome W
  drain_entry temp_buf w =
      if ltb (length temp_buf) (entry_header_size + header_data_length temp_buf)
      then fault
      else write_entry (header_log_id temp_buf) (header_timestamp temp_buf)
          (take (header_data_length temp_buf) (drop entry_header_size temp_buf)) w

  -- How the loop goes on behind an entry.
  abbrev pub drain_on :
      (W → Option (Outcome (W × StagingBuffer))) → Outcome W → Option (Outcome (W × StagingBuffer))
  drain_on f (done w) = f w
  drain_on f rejected = some rejected
  drain_on f fault = some fault

  -- The loop over one buffer; `none` is the fuel's end.
  unfoldable pub drain : ℕ → W → StagingBuffer → Option (Outcome (W × StagingBuffer))
  unfolding drain_entry
  drain zero w sb = none
  drain (suc fuel) w sb =
      let read = staging_read size sb max_log_entry_size in
      let wrapped =
        drain fuel w (staging_wrap_read_pos size (staging_consume size sb entry_header_size)) in
      let written =
        drain_on (λ w'. drain fuel w' (staging_consume size sb (length read)))
          (drain_entry (read ++ stale) w) in
      if staging_available size sb == 0
      then some (done (w, sb))
      else if length read == 0
      then some (done (w, sb))
      else if header_log_id (read ++ stale) == wrap_marker_log_id
      then wrapped
      else written
