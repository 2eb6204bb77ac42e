-- ===== src/Consumer/Rounds.antt =====
-- src/cnanolog.c: one round of the background thread over a buffer that has not wrapped around.
use cnano_log.Base.{
  ℕ, ◌+◌, ◌^◌, ◌<◌, ◌≤◌, ◌≡◌, ◌≢◌, refl, sym, ap, ◌∙◌, List, [], ◌++◌, ==_ne, le→ltb_false, length,
  length-append, take, drop, take-append, drop-append, arith,
}
use cnano_log.Base.Bytes.{le_bytes, le_value, le_value-le_bytes}
use cnano_log.Outcome.{Outcome, done, ◌>>=◌}
use cnano_log.Format.{entry_header_size}
use cnano_log.Producer.{max_log_entry_size}
use cnano_log.Writer.{entry_header}
use cnano_log.Writer.Session.{Entry, entry_bytes}
use cnano_log.Staging.{
  StagingBuffer, wrap_marker_log_id, staging_available, staging_read, staging_consume,
}
use cnano_log.Staging.Queue.{
  IsLinear, pending, available-pending, staging_read-pending, pending-consume,
}
use cnano_log.Consumer.{
  header_log_id, header_timestamp, header_data_length, Round, written, take_entry, round,
}

-- An entry that a producer stores: its log id is not the wrap marker's, and it fits in the thread's
-- buffer.
pub record IsStored (e : Entry) : Type 0 where
  pub id_fits : e.log_id < 2 ^ 32
  pub id_real : e.log_id ≢ wrap_marker_log_id
  pub timestamp_fits : e.timestamp < 2 ^ 64
  pub size_fits : entry_header_size + length e.arg_data ≤ max_log_entry_size

pub length-entry_bytes :
    (e : Entry) → length (entry_bytes e) ≡ entry_header_size + length e.arg_data
unfolding entry_header le_bytes
length-entry_bytes e = omega arith

-- The fields of a header, whatever follows it.
module _ (e : Entry) (v : IsStored e) (rest : List ℕ) where
  abbrev pub head : List ℕ
  head = entry_header e.log_id e.timestamp (length e.arg_data)

  pub header_log_id-entry_header : header_log_id (head ++ rest) ≡ e.log_id
  unfolding header_log_id entry_header le_bytes le_value
  header_log_id-entry_header = le_value-le_bytes 4 e.log_id v.id_fits

  pub header_timestamp-entry_header : header_timestamp (head ++ rest) ≡ e.timestamp
  unfolding header_timestamp entry_header le_bytes le_value
  header_timestamp-entry_header = le_value-le_bytes 8 e.timestamp v.timestamp_fits

  pub header_data_length-entry_header : header_data_length (head ++ rest) ≡ length e.arg_data
  unfolding header_data_length entry_header le_bytes le_value
  header_data_length-entry_header =
      le_value-le_bytes 2 (length e.arg_data) (omega (arith, v.size_fits))

  take-header : take 14 (entry_bytes e ++ rest) ≡ head ++ []
  unfolding entry_header le_bytes
  take-header = refl

  length-head : length (head ++ []) ≡ 14
  unfolding entry_header le_bytes
  length-head = refl

drop-header : (e : Entry) → drop 14 (entry_bytes e) ≡ e.arg_data
unfolding entry_header le_bytes
drop-header e = refl

-- A buffer whose first pending bytes are an entry.
module _ (size : ℕ) {sb : StagingBuffer} (lin : IsLinear size sb) (e : Entry) (v : IsStored e)
    (rest : List ℕ) (next : pending sb ≡ entry_bytes e ++ rest) where
  enough : entry_header_size + length e.arg_data ≤ staging_available size sb
  enough = omega (
    arith,
    available-pending size lin,
    ap length next,
    length-append (entry_bytes e) rest,
    length-entry_bytes e,
  )

  read-entry : staging_read size sb (entry_header_size + length e.arg_data) ≡ entry_bytes e
  read-entry =
      staging_read-pending size lin (entry_header_size + length e.arg_data)
      ∙ rw (next, sym (length-entry_bytes e)) (take-append (entry_bytes e) rest)

  read-header :
      staging_read size sb entry_header_size
      ≡ entry_header e.log_id e.timestamp (length e.arg_data) ++ []
  read-header = staging_read-pending size lin entry_header_size ∙ rw next (take-header e v rest)

  -- Consuming it leaves what is behind it.
  pub consume-stored :
      (pending (staging_consume size sb (entry_header_size + length e.arg_data)) ≡ rest)
      × IsLinear size (staging_consume size sb (entry_header_size + length e.arg_data))
  consume-stored =
      let (p, lin') = pending-consume size lin (entry_header_size + length e.arg_data) enough in
      (p ∙ rw (next, sym (length-entry_bytes e)) (drop-append (entry_bytes e) rest), lin')

  module _ {W : Type 0} (write_entry : ℕ → ℕ → List ℕ → W → Outcome W) (w : W) where
    -- What a round does with it.
    abbrev pub entry_round : Outcome (Round W)
    entry_round = write_entry e.log_id e.timestamp e.arg_data w >>= λ w'.
        done (written w' (staging_consume size sb (entry_header_size + length e.arg_data)))

    take_entry-stored :
        take_entry size write_entry (entry_header_size + length e.arg_data) w sb ≡ entry_round
    unfolding take_entry
    take_entry-stored = rw (
      read-entry,
      le→ltb_false (staging_available size sb) (entry_header_size + length e.arg_data) enough,
      le→ltb_false max_log_entry_size (entry_header_size + length e.arg_data) v.size_fits,
      le→ltb_false (length (entry_bytes e)) (entry_header_size + length e.arg_data)
          (omega (arith, length-entry_bytes e)),
      header_log_id-entry_header e v e.arg_data,
      header_timestamp-entry_header e v e.arg_data,
      drop-header e,
    )

    -- The first pending entry is handed on and consumed.
    pub round-stored : round size write_entry w sb ≡ entry_round
    unfolding round
    round-stored =
        let header = entry_header e.log_id e.timestamp (length e.arg_data) ++ [] in
        rw
          (
            read-header,
            round,
            le→ltb_false (staging_available size sb) entry_header_size (omega (arith, enough)),
            header_log_id-entry_header e v [],
            header_data_length-entry_header e v [],
            ==_ne e.log_id wrap_marker_log_id v.id_real,
            le→ltb_false (length header) entry_header_size (omega (arith, length-head e v [])),
          )
          take_entry-stored
