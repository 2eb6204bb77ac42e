-- ===== src/Staging/Wrap.antt =====
-- src/staging_buffer.c: one wrap-around, and what the producer does not check after it.
use cnano_log.Base.{
  ℕ, ◌+◌, ◌-◌, ◌%◌, ◌^◌, ◌<◌, ◌≤◌, ◌≡◌, refl, ◌∙◌, sym, ap, take, drop, ==_ne, le→ltb_false, List,
  some, true, leb, arith, length,
}
use cnano_log.Format.{entry_header_size}
use cnano_log.Staging.{
  StagingBuffer, wrap_marker, staging_reserve, staging_commit, staging_available, staging_consume,
  staging_wrap_read_pos, staging_read,
}
use cnano_log.Staging.Memory.{write_at, slice, slice-write_at, take-slice, drop-slice_le}
use cnano_log.Staging.Bounds.{InBounds}
use cnano_log.Staging.Queue.{IsLinear}

-- A reservation that does not fit at the end, with room for a marker there and for the bytes and 64
-- more before the read position.
pub record MustWrap (size : ℕ) (sb : StagingBuffer) (n : ℕ) : Type 0 where
  pub linear : IsLinear size sb
  pub published : sb.committed ≡ sb.write_pos
  pub positive : 0 < n
  pub too_long : size - sb.write_pos < n
  pub marker_room : sb.write_pos + entry_header_size ≤ size
  pub start_room : n + 64 < sb.read_pos

module _ (size : ℕ) (sb : StagingBuffer) (n : ℕ) (w : MustWrap size sb n) where
  wrapped : StagingBuffer
  wrapped = record sb {
    mem = write_at sb.mem sb.write_pos wrap_marker;
    committed = sb.write_pos + entry_header_size;
    write_pos = n;
  }

  reserve-wrap : staging_reserve size sb n ≡ (some 0, wrapped)
  unfolding staging_reserve wrapped
  reserve-wrap = ground (arith, w)

-- Going back to the start forgets what was consumed before.
wrap-consume :
    (size : ℕ) (sb : StagingBuffer) (n : ℕ)
    → staging_wrap_read_pos size (staging_consume size sb n) ≡ staging_wrap_read_pos size sb
unfolding staging_wrap_read_pos staging_consume
wrap-consume size sb n = ground arith

-- The buffer after the reservation, the store of the bytes and the commit.
abbrev pub rewound : ℕ → StagingBuffer → List ℕ → StagingBuffer
rewound size sb bs =
    let sb1 = (staging_reserve size sb (length bs)).1 in
    staging_commit size (record sb1 { mem = write_at sb1.mem 0 bs }) (length bs)

-- Between a reservation that wraps around and its commit, a consumer that has taken everything up to
-- the wrap marker and gone back to the start is offered all bytes up to the end of the marker, none
-- of which is a new entry.
pub staging_available-stale :
    (size : ℕ) (sb : StagingBuffer) (n taken : ℕ)
    → MustWrap size sb n
    → staging_available size
        (staging_wrap_read_pos size (staging_consume size ((staging_reserve size sb n).1) taken))
      ≡ sb.write_pos + entry_header_size
unfolding staging_available wrapped
staging_available-stale size sb n taken w =
    let le : leb 0 (sb.write_pos + entry_header_size) ≡ true = ground arith in
    let sub : (2 ^ 64 + (sb.write_pos + entry_header_size) - 0) % 2 ^ 64
        ≡ sb.write_pos + entry_header_size =
      omega (arith, w) in
    rw (wrap-consume size ((staging_reserve size sb n).1) taken, reserve-wrap size sb n w)
      (unfold staging_wrap_read_pos in rw (le, sub))

read_unread :
    (size : ℕ) (sb : StagingBuffer) (k : ℕ)
    → 0 < k
    → k ≤ staging_available size sb
    → staging_read size sb k ≡ slice sb.mem sb.read_pos k
unfolding staging_read
read_unread size sb k pos enough = rw (
  ==_ne k 0 (λ e. omega arith),
  ==_ne (staging_available size sb) 0 (λ e. omega arith),
  le→ltb_false (staging_available size sb) k enough,
)

-- Part of what was stored is copied back.
slice-write_at_part :
    (m : List ℕ) (p : ℕ) (bs : List ℕ) (d k : ℕ)
    → p + length bs ≤ length m
    → d + k ≤ length bs
    → slice (write_at m p bs) (p + d) k ≡ take k (drop d bs)
slice-write_at_part m p bs d k room part =
    let whole = slice-write_at m p bs room in
    sym (
      ap (λ b. take k (drop d b)) (sym whole)
      ∙ ap (take k) (drop-slice_le (write_at m p bs) p d (length bs) (omega arith))
      ∙ take-slice (write_at m p bs) (p + d) k (length bs - d) (omega arith))

-- Behind a wrap-around, where the write position is at or before the read position and `k` bytes are
-- still to be read, a reservation that ends before the end of the buffer is granted although it
-- reaches over those bytes. Once the producer has stored its bytes, and before it commits them, as
-- many bytes are available as before, but a read of `k` bytes, which gave those bytes, gives the
-- producer's in their place.
pub staging_reserve-overruns :
    (size : ℕ) (sb : StagingBuffer) (bs : List ℕ) (k : ℕ)
    → InBounds size sb
    → sb.write_pos ≤ sb.read_pos
    → 0 < k
    → k ≤ staging_available size sb
    → sb.read_pos + k ≤ sb.write_pos + length bs
    → sb.write_pos + length bs ≤ size
    → (let r = staging_reserve size sb (length bs) in
        let stored = record (r.1) { mem = write_at (r.1).mem sb.write_pos bs } in
        (r.0 ≡ some sb.write_pos)
        × (staging_available size stored ≡ staging_available size sb)
        × (staging_read size sb k ≡ slice sb.mem sb.read_pos k)
        × (staging_read size stored k ≡ take k (drop (sb.read_pos - sb.write_pos) bs)))
staging_reserve-overruns size sb bs k v behind pos unread over fits =
    let n = length bs in
    let granted : staging_reserve size sb n
        ≡ (some sb.write_pos, record sb { write_pos = sb.write_pos + n }) =
      (unfold staging_reserve in ground (arith, v)) in
    let stored : StagingBuffer = record sb {
      write_pos = sb.write_pos + n;
      mem = write_at sb.mem sb.write_pos bs;
    } in
    let same : staging_available size stored ≡ staging_available size sb =
      (unfold staging_available in refl) in
    let place : sb.write_pos + (sb.read_pos - sb.write_pos) ≡ sb.read_pos = omega arith in
    let copied =
      slice-write_at_part sb.mem sb.write_pos bs (sb.read_pos - sb.write_pos) k (omega (arith, v))
        (omega arith) in
    rw granted (
      refl,
      same,
      read_unread size sb k pos unread,
      read_unread size stored k pos (rw same unread) ∙ rw place at copied,
    )
