-- ===== src/Shutdown/Loss.antt =====
-- src/cnanolog.c: what the drain of a staging buffer at shutdown writes.
use cnano_log.Base.{
  ℕ, zero, suc, ◌+◌, ◌≤◌, ◌≡◌, refl, ap, ◌∙◌, List, [], ◌∷◌, ◌++◌, append_assoc, Option, some,
  false, ◌==◌, ==_ne, le→ltb_false, length, length-append, take, take-append, drop, arith,
}
use cnano_log.Base.Bytes.{le_bytes}
use cnano_log.Outcome.{Outcome, done, rejected, fault, ◌>>=◌}
use cnano_log.Format.{entry_header_size}
use cnano_log.Writer.{entry_header}
use cnano_log.Writer.Session.{Entry, entry_bytes}
use cnano_log.Staging.{
  StagingBuffer, wrap_marker_log_id, staging_available, staging_read, staging_consume,
}
use cnano_log.Staging.Queue.{
  IsLinear, pending, available-pending, staging_read-pending, pending-consume,
}
use cnano_log.Producer.{max_log_entry_size}
use cnano_log.Consumer.{header_log_id}
use cnano_log.Consumer.Rounds.{
  IsStored, length-entry_bytes, header_log_id-entry_header, header_timestamp-entry_header,
  header_data_length-entry_header,
}
use cnano_log.Shutdown.{drain_entry, drain_on, drain}

take-short : (n : ℕ) (xs : List ℕ) → length xs ≤ n → take n xs ≡ xs
take-short zero [] h = refl
take-short zero (x ∷ xs) h = absurd (omega arith)
take-short (suc n) [] h = refl
take-short (suc n) (x ∷ xs) h = ap (λ r. x ∷ r) (take-short n xs (omega arith))

drop-all : (xs : List ℕ) → drop (length xs) xs ≡ []
drop-all [] = refl
drop-all (x ∷ xs) = drop-all xs

drop-header :
    (e : Entry) (rest : List ℕ)
    → drop 14 (entry_header e.log_id e.timestamp (length e.arg_data) ++ rest) ≡ rest
unfolding entry_header le_bytes
drop-header e rest = refl

module _ {W : Type 0} (size : ℕ) (stale : List ℕ)
    (write_entry : ℕ → ℕ → List ℕ → W → Outcome W) where
  drain_entry-stored :
      (e : Entry) (rest : List ℕ) (w : W)
      → IsStored e
      → drain_entry size stale write_entry (entry_bytes e ++ rest) w
        ≡ write_entry e.log_id e.timestamp e.arg_data w
  unfolding drain_entry
  drain_entry-stored e rest w v =
      let behind = e.arg_data ++ rest in
      let head = entry_header e.log_id e.timestamp (length e.arg_data) in
      let shape = append_assoc head e.arg_data rest in
      let whole = length-append (entry_bytes e) rest in
      let fits =
        le→ltb_false (length (head ++ behind)) (entry_header_size + length e.arg_data)
          (omega (arith, ap length shape, whole, length-entry_bytes e)) in
      rw (
        shape,
        header_data_length-entry_header e v behind,
        header_log_id-entry_header e v behind,
        header_timestamp-entry_header e v behind,
        drop-header e behind,
        take-append e.arg_data rest,
        fits,
      )

  -- Nothing is left to do in a buffer with nothing pending.
  drain-empty :
      (fuel : ℕ) (w : W) {sb : StagingBuffer}
      → IsLinear size sb
      → pending sb ≡ []
      → drain size stale write_entry (suc fuel) w sb ≡ some (done (w, sb))
  unfolding drain
  drain-empty fuel w {sb} lin none_left =
      let zero_left : staging_available size sb ≡ 0 =
        omega (arith, available-pending size lin, ap length none_left) in
      rw zero_left

  -- An entry that is no wrap marker is written, and all that was read is consumed.
  drain_written :
      (fuel : ℕ) (w : W) (sb : StagingBuffer) (bytes : List ℕ)
      → staging_read size sb max_log_entry_size ≡ bytes
      → (staging_available size sb == 0) ≡ false
      → (length bytes == 0) ≡ false
      → (header_log_id (bytes ++ stale) == wrap_marker_log_id) ≡ false
      → drain size stale write_entry (suc fuel) w sb
        ≡ drain_on size stale write_entry
            (λ w'. drain size stale write_entry fuel w' (staging_consume size sb (length bytes)))
            (drain_entry size stale write_entry (bytes ++ stale) w)
  unfolding drain
  drain_written fuel w sb bytes read waits some_bytes no_marker =
      rw (read, waits, some_bytes, no_marker)

  after_drain :
      (f : W → Option (Outcome (W × StagingBuffer))) (sb : StagingBuffer) (o : Outcome W)
      → ((w : W) → f w ≡ some (done (w, sb)))
      → drain_on size stale write_entry f o ≡ some (o >>= λ w. done (w, sb))
  after_drain f sb (done w) h = h w
  after_drain f sb rejected h = refl
  after_drain f sb fault h = refl

  -- When several entries wait in a staging buffer at shutdown, and are no more than 16384 bytes, only
  -- the first of them is written, as it stands; the others are consumed without being written, and
  -- nothing is pending afterwards. The buffer has not wrapped around.
  pub drain-loses :
      (fuel : ℕ) (w : W) (e : Entry) (rest : List ℕ) (sb : StagingBuffer)
      → IsLinear size sb
      → IsStored e
      → pending sb ≡ entry_bytes e ++ rest
      → length (entry_bytes e ++ rest) ≤ max_log_entry_size
      → 2 ≤ fuel
      → (sb' : StagingBuffer) × ((drain size stale write_entry fuel w sb
            ≡ some (write_entry e.log_id e.timestamp e.arg_data w >>= λ w'. done (w', sb')))
          × (pending sb' ≡ []))
  drain-loses zero w e rest sb lin v waits few fuelled = absurd (omega arith)
  drain-loses (suc zero) w e rest sb lin v waits few fuelled = absurd (omega arith)
  drain-loses (suc (suc fuel)) w e rest sb lin v waits few fuelled =
      let n = length (entry_bytes e ++ rest) in
      let some_bytes : 14 ≤ n =
        omega (arith, length-append (entry_bytes e) rest, length-entry_bytes e) in
      let available : staging_available size sb ≡ n =
        available-pending size lin ∙ ap length waits in
      let read : staging_read size sb max_log_entry_size ≡ entry_bytes e ++ rest =
        staging_read-pending size lin max_log_entry_size
        ∙ ap (take max_log_entry_size) waits
        ∙ take-short max_log_entry_size (entry_bytes e ++ rest) few in
      let (p, lin') = pending-consume size lin n (omega (arith, available)) in
      let gone : pending (staging_consume size sb n) ≡ [] =
        p ∙ ap (drop n) waits ∙ drop-all (entry_bytes e ++ rest) in
      let shape = append_assoc (entry_bytes e) rest stale in
      let head = entry_header e.log_id e.timestamp (length e.arg_data) in
      let id : header_log_id ((entry_bytes e ++ rest) ++ stale) ≡ e.log_id =
        ap header_log_id (shape ∙ append_assoc head e.arg_data (rest ++ stale))
        ∙ header_log_id-entry_header e v (e.arg_data ++ (rest ++ stale)) in
      let stored : drain_entry size stale write_entry ((entry_bytes e ++ rest) ++ stale) w
          ≡ write_entry e.log_id e.timestamp e.arg_data w =
        ap (λ m. drain_entry size stale write_entry m w) shape
        ∙ drain_entry-stored e (rest ++ stale) w v in
      let next =
        λ (w' : W). drain size stale write_entry (suc fuel) w' (staging_consume size sb n) in
      (
        staging_consume size sb n,
        (
          drain_written (suc fuel) w sb (entry_bytes e ++ rest) read
                (==_ne (staging_available size sb) 0 (λ q. omega (arith, some_bytes, q, available)))
                (==_ne n 0 (λ q. omega (arith, some_bytes, q)))
                (ap (λ m. m == wrap_marker_log_id) id ∙ ==_ne e.log_id wrap_marker_log_id v.id_real)
              ∙ ap (drain_on size stale write_entry next) stored
              ∙ after_drain next (staging_consume size sb n)
                  (write_entry e.log_id e.timestamp e.arg_data w)
                  (λ w'. drain-empty fuel w' lin' gone),
          gone,
        ),
      )
