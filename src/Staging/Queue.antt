-- ===== src/Staging/Queue.antt =====
-- src/staging_buffer.c: up to the first wrap-around the buffer is a queue of bytes.
use cnano_log.Base.{
  ℕ, zero, suc, ◌+◌, ◌-◌, ◌<◌, ◌≤◌, ◌≡◌, refl, ◌∙◌, sym, List, [], ◌++◌, some, false, if◌then◌else◌,
  ltb, ◌==◌, arith, length, append_assoc, take, drop, take-append-drop, inl, dec_lt, lt→ltb,
  le→ltb_false, le→leb,
}
use cnano_log.Staging.{
  StagingBuffer, staging_reserve, staging_commit, staging_adjust_reservation, staging_available,
  staging_read, staging_consume, sub_size,
}
use cnano_log.Staging.Memory.{
  write_at, slice, length-write_at, length-slice, slice-write_at, slice-write_at_ne, take-slice,
  take-slice_all, drop-slice_le, slice-append_to,
}
use cnano_log.Staging.Bounds.{InBounds}

-- No wrap-around is under way: the consumer follows the producer.
pub record IsLinear (size : ℕ) (sb : StagingBuffer) : Type 0 where
  pub bounds : InBounds size sb
  pub read_le : sb.read_pos ≤ sb.committed
  pub committed_le : sb.committed ≤ sb.write_pos

-- The committed bytes that are not consumed yet.
abbrev pub pending : StagingBuffer → List ℕ
pending sb = slice sb.mem sb.read_pos (sb.committed - sb.read_pos)

nonzero : (n : ℕ) → (suc n == 0) ≡ false
nonzero n = ground arith

-- The copy of `staging_read`, over the number `d` of available bytes.
copy-slice :
    (m : List ℕ) (a d n : ℕ)
    → (if n == 0 then [] else if d == 0 then [] else slice m a (if ltb d n then d else n))
      ≡ take n (slice m a d)
unfolding slice
copy-slice m a d zero = refl
copy-slice m a zero (suc n) = ground arith
copy-slice m a (suc d) (suc n) = elim (dec_lt (suc d) (suc n)) [
  | yes h ↦
      rw (nonzero d, nonzero n, lt→ltb (suc d) (suc n) h)
        (sym (take-slice_all m a (suc n) (suc d) (omega arith)))
  | no h ↦
      rw (nonzero d, nonzero n, le→ltb_false (suc d) (suc n) (omega arith))
        (sym (take-slice m a (suc n) (suc d) (omega arith)))
]

module _ (size : ℕ) {sb : StagingBuffer} (v : IsLinear size sb) where
  pub available-pending : staging_available size sb ≡ length (pending sb)
  unfolding staging_available
  available-pending =
      ground (arith, v, length-slice sb.mem sb.read_pos (sb.committed - sb.read_pos))

  -- Before a wrap-around a read returns the first pending bytes, as many as asked for if there are
  -- that many.
  pub staging_read-pending : (n : ℕ) → staging_read size sb n ≡ take n (pending sb)
  unfolding staging_read staging_available
  staging_read-pending n =
      let le = le→leb sb.read_pos sb.committed v.read_le in
      let sub : sub_size sb.committed sb.read_pos ≡ sb.committed - sb.read_pos = omega (arith, v) in
      rw (le, sub) (copy-slice sb.mem sb.read_pos (sb.committed - sb.read_pos) n)

  consume-write :
      (n : ℕ)
      → n ≤ staging_available size sb
      → staging_consume size sb n ≡ record sb { read_pos = sb.read_pos + n }
  unfolding staging_consume staging_available
  consume-write n h = ground (arith, v)

  -- Before a wrap-around, consuming at most the available bytes takes exactly that prefix off the
  -- pending bytes.
  pub pending-consume :
      (n : ℕ)
      → n ≤ staging_available size sb
      → (pending (staging_consume size sb n) ≡ drop n (pending sb))
        × IsLinear size (staging_consume size sb n)
  pending-consume n h =
      let le : n ≤ sb.committed - sb.read_pos =
        omega (
          arith,
          available-pending,
          length-slice sb.mem sb.read_pos (sb.committed - sb.read_pos),
        ) in
      let rest : sb.committed - (sb.read_pos + n) ≡ sb.committed - sb.read_pos - n = omega arith in
      rw (consume-write n h) (
        rw rest (sym (drop-slice_le sb.mem sb.read_pos n (sb.committed - sb.read_pos) le)),
        omega (arith, v),
      )

  pub reserve-write :
      (n : ℕ)
      → 0 < n
      → n ≤ size - sb.write_pos
      → staging_reserve size sb n ≡ (some sb.write_pos, record sb { write_pos = sb.write_pos + n })
  unfolding staging_reserve
  reserve-write n pos room = ground (arith, v)

  -- A reservation that fits at the end succeeds, and leaves what is pending.
  reserve-pending :
      (n : ℕ)
      → 0 < n
      → n ≤ size - sb.write_pos
      → (pending (staging_reserve size sb n).1 ≡ pending sb)
        × IsLinear size (staging_reserve size sb n).1
  reserve-pending n pos room = rw (reserve-write n pos room) (refl, omega (arith, v))

  -- A store behind the committed bytes leaves what is pending.
  store-pending :
      (p : ℕ) (bs : List ℕ)
      → sb.committed ≤ p
      → (pending (record sb { mem = write_at sb.mem p bs }) ≡ pending sb)
        × IsLinear size (record sb { mem = write_at sb.mem p bs })
  store-pending p bs h = (
    slice-write_at_ne sb.mem p bs sb.read_pos (sb.committed - sb.read_pos) (inl (omega (arith, v))),
    omega (arith, v, length-write_at sb.mem p bs),
  )

  -- Giving back bytes that are not committed leaves what is pending.
  adjust-pending :
      (r a : ℕ)
      → r ≤ sb.write_pos - sb.committed
      → (pending (staging_adjust_reservation size sb r a) ≡ pending sb)
        × IsLinear size (staging_adjust_reservation size sb r a)
  unfolding staging_adjust_reservation
  adjust-pending r a h = ground (arith, v)

  -- A commit appends the bytes from the committed position up to the write position.
  pub commit-pending :
      (n : ℕ)
      → 0 < n
      → (pending (staging_commit size sb n)
          ≡ pending sb ++ slice sb.mem sb.committed (sb.write_pos - sb.committed))
        × IsLinear size (staging_commit size sb n)
  unfolding staging_commit
  commit-pending n pos =
      let some_bytes : (n == 0) ≡ false = ground arith in
      rw some_bytes (
        slice-append_to sb.mem sb.read_pos sb.committed sb.write_pos v.read_le v.committed_le,
        omega (arith, v),
      )

-- Before a wrap-around, with no other reservation open, reserving room that is there, storing the
-- bytes in it and committing appends exactly these bytes to the pending ones.
pub publish-pending :
    (size : ℕ) (sb : StagingBuffer) (bs : List ℕ)
    → IsLinear size sb
    → sb.committed ≡ sb.write_pos
    → 0 < length bs
    → length bs ≤ size - sb.write_pos
    → (let sb1 = (staging_reserve size sb (length bs)).1 in
        let sb2 = record sb1 { mem = write_at sb1.mem sb.write_pos bs } in
        pending (staging_commit size sb2 (length bs)))
      ≡ pending sb ++ bs
publish-pending size sb bs v all pos room =
    let n = length bs in
    let sb2 : StagingBuffer = record sb {
      write_pos = sb.write_pos + n;
      mem = write_at sb.mem sb.write_pos bs;
    } in
    let v2 : IsLinear size sb2 = omega (arith, length-write_at sb.mem sb.write_pos bs) in
    let old : pending sb2 ≡ pending sb =
      slice-write_at_ne sb.mem sb.write_pos bs sb.read_pos (sb.committed - sb.read_pos)
        (inl (omega arith)) in
    let size_new : sb.write_pos + n - sb.committed ≡ n = omega arith in
    let new : slice (write_at sb.mem sb.write_pos bs) sb.committed (sb.write_pos + n - sb.committed)
        ≡ bs =
      rw (size_new, all) (slice-write_at sb.mem sb.write_pos bs (omega arith)) in
    rw (reserve-write size v n pos room)
      ((commit-pending size {sb = sb2} v2 n pos).0 ∙ rw (old, new))

-- A history of the buffer without a wrap-around, from a state with nothing pending, in single
-- operations of the two threads in any order, with the bytes that were committed and the bytes that
-- were consumed.
pub data Run (size : ℕ) : StagingBuffer → List ℕ → List ℕ → Type 0 where
  create : {sb : StagingBuffer} → IsLinear size sb → pending sb ≡ [] → Run size sb [] []
  reserve :
      {sb : StagingBuffer} {sent got : List ℕ} (n : ℕ)
      → 0 < n
      → n ≤ size - sb.write_pos
      → Run size sb sent got
      → Run size ((staging_reserve size sb n).1) sent got
  store :
      {sb : StagingBuffer} {sent got : List ℕ} (p : ℕ) (bs : List ℕ)
      → sb.committed ≤ p
      → Run size sb sent got
      → Run size (record sb { mem = write_at sb.mem p bs }) sent got
  adjust :
      {sb : StagingBuffer} {sent got : List ℕ} (r a : ℕ)
      → r ≤ sb.write_pos - sb.committed
      → Run size sb sent got
      → Run size (staging_adjust_reservation size sb r a) sent got
  commit :
      {sb : StagingBuffer} {sent got : List ℕ} (n : ℕ)
      → 0 < n
      → Run size sb sent got
      → Run size
          (staging_commit size sb n)
          (sent ++ slice sb.mem sb.committed (sb.write_pos - sb.committed))
          got
  consume :
      {sb : StagingBuffer} {sent got : List ℕ} (n : ℕ)
      → n ≤ staging_available size sb
      → Run size sb sent got
      → Run size (staging_consume size sb n) sent (got ++ staging_read size sb n)

-- In every history of the buffer without a wrap-around, from a state with nothing pending, the
-- committed bytes are the consumed ones followed by the pending ones: the consumer gets the bytes
-- once each and in order.
pub Run-queue :
    (size : ℕ) {sb : StagingBuffer} {sent got : List ℕ}
    → Run size sb sent got
    → (sent ≡ got ++ pending sb) × IsLinear size sb
Run-queue size (create v e) = (sym e, v)
Run-queue size (reserve n pos room r) =
    let (e, v) = Run-queue size r in let (p, v') = reserve-pending size v n pos room in (rw p e, v')
Run-queue size (store p bs h r) =
    let (e, v) = Run-queue size r in let (q, v') = store-pending size v p bs h in (rw q e, v')
Run-queue size (adjust r' a h r) =
    let (e, v) = Run-queue size r in let (q, v') = adjust-pending size v r' a h in (rw q e, v')
Run-queue size (commit {sb} {sent} {got} n pos r) =
    let (e, v) = Run-queue size r in
    let (q, v') = commit-pending size v n pos in
    (
      rw (q, e)
          (append_assoc got (pending sb) (slice sb.mem sb.committed (sb.write_pos - sb.committed))),
      v',
    )
Run-queue size (consume {sb} {sent} {got} n h r) =
    let (e, v) = Run-queue size r in
    let (q, v') = pending-consume size v n h in
    (
      rw
          (
            q,
            staging_read-pending size v n,
            append_assoc got (take n (pending sb)) (drop n (pending sb)),
            take-append-drop n (pending sb),
          )
          e,
      v',
    )
