-- ===== src/Consumer/Pending.antt =====
-- src/cnanolog.c: a batch of the background thread over a buffer that has not wrapped around.
use cnano_log.Base.{
  ℕ, zero, suc, ◌+◌, ◌<◌, ◌≤◌, ◌≡◌, ◌⊎◌, inl, inr, refl, ap, ◌∙◌, List, [], ◌∷◌, ◌++◌, append_assoc,
  Option, some, lt→ltb, length, All, arith,
}
use cnano_log.Outcome.{Outcome, done, rejected, fault, ◌>>=◌}
use cnano_log.Format.{entry_header_size}
use cnano_log.Writer.Session.{Entry, entry_bytes, entries_bytes}
use cnano_log.Staging.{StagingBuffer, staging_available, staging_consume}
use cnano_log.Staging.Queue.{IsLinear, pending, available-pending}
use cnano_log.Consumer.{stopped, written, Batch, round, after_round, batch_loop}
use cnano_log.Consumer.Rounds.{IsStored, round-stored, consume-stored}

-- The buffer after some entries are consumed.
unfoldable pub consume_all : ℕ → List Entry → StagingBuffer → StagingBuffer
consume_all size [] sb = sb
consume_all size (e ∷ es) sb =
    consume_all size es (staging_consume size sb (entry_header_size + length e.arg_data))

pub consume_all-pending :
    (size : ℕ) (es : List Entry) {sb : StagingBuffer} (rest : List ℕ)
    → IsLinear size sb
    → All IsStored es
    → pending sb ≡ entries_bytes es ++ rest
    → (pending (consume_all size es sb) ≡ rest) × IsLinear size (consume_all size es sb)
unfolding consume_all
consume_all-pending size [] rest lin h e = (e, lin)
consume_all-pending size (x ∷ es) rest lin h e =
    let next = e ∙ append_assoc (entry_bytes x) (entries_bytes es) rest in
    let (p, lin') = consume-stored size lin x h.0 (entries_bytes es ++ rest) next in
    consume_all-pending size es rest lin' h.1 p

-- Handing several entries on, in order.
unfoldable pub write_all :
    {W : Type 0} → (ℕ → ℕ → List ℕ → W → Outcome W) → List Entry → W → Outcome W
write_all write_entry [] w = done w
write_all write_entry (e ∷ es) w =
    write_entry e.log_id e.timestamp e.arg_data w >>= write_all write_entry es

module _ {W : Type 0} (size : ℕ) (write_entry : ℕ → ℕ → List ℕ → W → Outcome W) where
  -- A round without a whole header stops.
  round-short :
      (w : W) {sb : StagingBuffer}
      → IsLinear size sb
      → length (pending sb) < entry_header_size
      → round size write_entry w sb ≡ done stopped
  unfolding round
  round-short w {sb} lin h =
      let short =
        lt→ltb (staging_available size sb) entry_header_size
          (omega (arith, available-pending size lin, h)) in
      rw short

  -- The loop behind an entry, for each outcome of handing it on.
  after_entry :
      (fuel room : ℕ) (es : List Entry) (b : Batch W) (sb left : StagingBuffer) (count total : ℕ)
      → ((w : W)
          → batch_loop size write_entry fuel room
              (record { writer = w; sb = sb; batch_count = count })
            ≡ some (
                write_all write_entry es w >>= λ w'.
                done (record { writer = w'; sb = left; batch_count = total })))
      → (on_wrap : StagingBuffer → Option (Outcome (Batch W))) → (o : Outcome W)
      → after_round size write_entry on_wrap
          (λ w' sb'.
            batch_loop size write_entry fuel room
              (record { writer = w'; sb = sb'; batch_count = count }))
          b
          (o >>= λ w'. done (written w' sb))
        ≡ some (
            o >>= write_all write_entry es >>= λ w'.
            done (record { writer = w'; sb = left; batch_count = total }))
  after_entry fuel room es b sb left count total later on_wrap fault = refl
  after_entry fuel room es b sb left count total later on_wrap rejected = refl
  after_entry fuel room es b sb left count total later on_wrap (done w') = later w'

  -- A batch hands on the pending entries in order and consumes them, when they are all that the batch
  -- has room for, or what is behind them is no header yet; one round for each of them is enough, and
  -- one to see that there are no more.
  pub batch_loop-stored :
      (fuel room : ℕ) (es : List Entry) (w : W) {sb : StagingBuffer} (count : ℕ) (rest : List ℕ)
      → IsLinear size sb
      → All IsStored es
      → pending sb ≡ entries_bytes es ++ rest
      → (length es ≡ room) ⊎ (length rest < entry_header_size)
      → length es ≤ room
      → length es < fuel
      → batch_loop size write_entry fuel room (record { writer = w; sb = sb; batch_count = count })
        ≡ some (
            write_all write_entry es w >>= λ w'.
            done (record {
              writer = w';
              sb = consume_all size es sb;
              batch_count = count + length es;
            }))
  unfolding batch_loop write_all consume_all
  batch_loop-stored fuel zero [] w count rest lin h e last fits fuelled =
      let same : count + 0 ≡ count = omega arith in rw same
  batch_loop-stored zero room es w count rest lin h e last fits fuelled = absurd (omega arith)
  batch_loop-stored (suc fuel) (suc room) [] w {sb} count rest lin h e last fits fuelled =
      let same : count + 0 ≡ count = omega arith in
      let short : length (pending sb) < entry_header_size = elim last [
        | inl full ↦ absurd (omega arith)
        | inr few ↦ omega (arith, ap length e, few)
      ] in
      rw (round-short w lin short, same)
  batch_loop-stored (suc fuel) zero (x ∷ es) w count rest lin h e last fits fuelled =
      absurd (omega arith)
  batch_loop-stored (suc fuel) (suc room) (x ∷ es) w {sb} count rest lin h e last fits fuelled =
      let next = e ∙ append_assoc (entry_bytes x) (entries_bytes es) rest in
      let (p, lin') = consume-stored size lin x h.0 (entries_bytes es ++ rest) next in
      let last' : (length es ≡ room) ⊎ (length rest < entry_header_size) = elim last [
        | inl full ↦ inl (omega arith)
        | inr few ↦ inr few
      ] in
      let same : count + suc (length es) ≡ count + 1 + length es = omega arith in
      rw (round-stored size lin x h.0 (entries_bytes es ++ rest) next write_entry w, same)
        (after_entry fuel room es (record { writer = w; sb = sb; batch_count = count })
          (staging_consume size sb (entry_header_size + length x.arg_data))
          (consume_all size (x ∷ es) sb) (count + 1) (count + 1 + length es)
          (λ w'.
            batch_loop-stored fuel room es w' (count + 1) rest lin' h.1 p last' (omega arith)
              (omega arith))
          _ (write_entry x.log_id x.timestamp x.arg_data w))
