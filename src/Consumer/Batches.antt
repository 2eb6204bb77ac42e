-- ===== src/Consumer/Batches.antt =====
-- src/cnanolog.c: batches of the background thread end, and one after the other take all that is
-- pending.
use cnano_log.Base.{
  ℕ, zero, suc, ◌+◌, ◌*◌, ◌≤◌, ◌≡◌, ◌≢◌, ◌⊎◌, inl, inr, refl, List, Option, some, Bool, true, false,
  if◌then◌else◌, ltb, ◌==◌, ==_iff, Bool-cases, length, arith,
}
use cnano_log.Outcome.{Outcome, done, rejected, fault, ◌>>=◌}
use cnano_log.Format.{entry_header_size}
use cnano_log.Producer.{max_log_entry_size}
use cnano_log.Staging.{
  StagingBuffer, wrap_marker_log_id, staging_available, staging_read, staging_consume,
  staging_wrap_read_pos,
}
use cnano_log.Consumer.{
  header_log_id, header_data_length, Round, stopped, wrapped, written, Batch, take_entry, round,
  after_round, batch_loop,
}

-- The header that a round finds at the read position.
abbrev pub next_log_id : ℕ → StagingBuffer → ℕ
next_log_id size sb = header_log_id (staging_read size sb entry_header_size)

-- The buffer's start holds no wrap marker.
abbrev pub StartsPlain : ℕ → StagingBuffer → Type 0
StartsPlain size sb = next_log_id size (staging_wrap_read_pos size sb) ≢ wrap_marker_log_id

wrap-if :
    (size : ℕ) (sb : StagingBuffer) (b : Bool) (x y : StagingBuffer)
    → staging_wrap_read_pos size x ≡ staging_wrap_read_pos size sb
    → staging_wrap_read_pos size y ≡ staging_wrap_read_pos size sb
    → staging_wrap_read_pos size (if b then x else y) ≡ staging_wrap_read_pos size sb
wrap-if size sb true x y h k = h
wrap-if size sb false x y h k = k

-- Consuming moves the read position only.
wrap-consume :
    (size : ℕ) (sb : StagingBuffer) (n : ℕ)
    → staging_wrap_read_pos size (staging_consume size sb n) ≡ staging_wrap_read_pos size sb
unfolding staging_wrap_read_pos staging_consume
wrap-consume size sb n = wrap-if size sb (n == 0) _ _ refl (wrap-if size sb _ _ _ refl refl)

module _ {W : Type 0} (size : ℕ) (write_entry : ℕ → ℕ → List ℕ → W → Outcome W) where
  -- What a round's result says of the buffer it leaves.
  Leads : StagingBuffer → Outcome (Round W) → Type 0
  Leads sb (done (wrapped sb')) =
      (sb' ≡ staging_wrap_read_pos size sb) × (next_log_id size sb ≡ wrap_marker_log_id)
  Leads sb (done (written w sb')) = staging_wrap_read_pos size sb' ≡ staging_wrap_read_pos size sb
  Leads sb _ = Unit

  Leads-stopped : (sb : StagingBuffer) → Leads sb (done stopped)
  unfolding Leads
  Leads-stopped sb = tt

  Leads-fault : (sb : StagingBuffer) → Leads sb fault
  unfolding Leads
  Leads-fault sb = tt

  Leads-wrapped :
      (sb : StagingBuffer)
      → (next_log_id size sb == wrap_marker_log_id) ≡ true
      → Leads sb
          (done (wrapped (staging_wrap_read_pos size (staging_consume size sb entry_header_size))))
  unfolding Leads
  Leads-wrapped sb marker = (
    wrap-consume size sb entry_header_size,
    (==_iff (next_log_id size sb) wrap_marker_log_id).0 marker,
  )

  Leads-written :
      (sb : StagingBuffer) (n : ℕ) (o : Outcome W)
      → Leads sb (o >>= λ w'. done (written w' (staging_consume size sb n)))
  unfolding Leads
  Leads-written sb n (done w) = wrap-consume size sb n
  Leads-written sb n rejected = tt
  Leads-written sb n fault = tt

  take_entry-Leads :
      (w : W) (sb : StagingBuffer) (n : ℕ) → Leads sb (take_entry size write_entry n w sb)
  unfolding take_entry
  take_entry-Leads w sb n = elim (Bool-cases (ltb (staging_available size sb) n)) [
    | inl partial ↦ rw partial (Leads-stopped sb)
    | inr whole ↦ elim (Bool-cases (ltb max_log_entry_size n)) [
      | inl large ↦ rw (whole, large) (Leads-fault sb)
      | inr fits ↦ elim (Bool-cases (ltb (length (staging_read size sb n)) n)) [
        | inl short ↦ rw (whole, fits, short) (Leads-stopped sb)
        | inr full ↦ rw (whole, fits, full) (Leads-written sb n _)
      ]
    ]
  ]

  round-Leads : (w : W) (sb : StagingBuffer) → Leads sb (round size write_entry w sb)
  unfolding round
  round-Leads w sb = elim (Bool-cases (ltb (staging_available size sb) entry_header_size)) [
    | inl partial ↦ rw partial (Leads-stopped sb)
    | inr whole ↦
        elim (Bool-cases
          (ltb (length (staging_read size sb entry_header_size)) entry_header_size)) [
            | inl short ↦ rw (whole, short) (Leads-stopped sb)
            | inr full ↦ elim (Bool-cases (next_log_id size sb == wrap_marker_log_id)) [
              | inl marker ↦ rw (whole, full, marker) (Leads-wrapped sb marker)
              | inr real ↦
                  rw (whole, full, real)
                    (take_entry-Leads w sb (
                      entry_header_size
                      + header_data_length (staging_read size sb entry_header_size)))
            ]
          ]
  ]

  abbrev Ends : Option (Outcome (Batch W)) → Type 0
  Ends r = (o : Outcome (Batch W)) × (r ≡ some o)

  -- A loop that goes on as it must.
  Ends-round :
      (b : Batch W) (o : Outcome (Round W)) (on_wrap : StagingBuffer → Option (Outcome (Batch W)))
      (on_entry : W → StagingBuffer → Option (Outcome (Batch W)))
      → Leads b.sb o
      → ((sb : StagingBuffer)
          → sb ≡ staging_wrap_read_pos size b.sb
          → next_log_id size b.sb ≡ wrap_marker_log_id
          → Ends (on_wrap sb))
      → ((w : W) (sb : StagingBuffer)
          → staging_wrap_read_pos size sb ≡ staging_wrap_read_pos size b.sb
          → Ends (on_entry w sb))
      → Ends (after_round size write_entry on_wrap on_entry b o)
  unfolding Leads
  Ends-round b fault f g l h k = (fault, refl)
  Ends-round b rejected f g l h k = (rejected, refl)
  Ends-round b (done stopped) f g l h k = (done b, refl)
  Ends-round b (done (wrapped sb)) f g (l, m) h k = h sb l m
  Ends-round b (done (written w sb)) f g l h k = k w sb l

  -- Two rounds for each entry of room are enough, and one is where the next header is no marker.
  batch_loop-Ends :
      (fuel room : ℕ) (b : Batch W)
      → StartsPlain size b.sb
      → (2 * room ≤ fuel) ⊎ ((2 * room ≤ suc fuel) × (next_log_id size b.sb ≢ wrap_marker_log_id))
      → Ends (batch_loop size write_entry fuel room b)
  unfolding batch_loop staging_wrap_read_pos
  batch_loop-Ends fuel zero b plain enough = (done b, refl)
  batch_loop-Ends zero (suc room) b plain enough =
      absurd (elim enough [ inl h ↦ omega arith | inr h ↦ omega arith ])
  batch_loop-Ends (suc fuel) (suc room) b plain enough =
      Ends-round b (round size write_entry b.writer b.sb) _ _ (round-Leads b.writer b.sb)
        (λ sb at_start marker.
          batch_loop-Ends fuel (suc room) (record b { sb = sb }) (rw at_start plain)
            (elim enough [
              | inl h ↦ inr (omega arith, rw at_start plain)
              | inr h ↦ absurd (h.1 marker)
            ]))
        (λ w sb same.
          batch_loop-Ends fuel room
            (record { writer = w; sb = sb; batch_count = b.batch_count + 1 }) (rw same plain)
            (inl (elim enough [ inl h ↦ omega arith | inr h ↦ omega arith ])))

  -- A batch ends: it makes at most two rounds for each entry that it may take, whatever the buffer
  -- holds and whatever is done with the entries, unless a wrap marker stands at the buffer's start.
  pub batch_loop-ends :
      (fuel room : ℕ) (b : Batch W)
      → StartsPlain size b.sb
      → 2 * room ≤ fuel
      → (o : Outcome (Batch W)) × (batch_loop size write_entry fuel room b ≡ some o)
  batch_loop-ends fuel room b plain enough = batch_loop-Ends fuel room b plain (inl enough)
