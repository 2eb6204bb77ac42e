-- ===== src/Staging/Bounds.antt =====
-- src/staging_buffer.c: every position stays within the buffer, so every access does.
use cnano_log.Base.{ℕ, ◌+◌, ◌^◌, ◌≤◌, ◌≡◌, List, some, true, arith, length, length-replicate, ◌⊎◌}
use cnano_log.Format.{entry_header_size}
use cnano_log.Staging.{
  StagingBuffer, wrap_marker, staging_buffer_create, staging_reserve, staging_commit,
  staging_adjust_reservation, staging_available, staging_read, staging_consume,
  staging_wrap_read_pos, staging_reset,
}
use cnano_log.Staging.Memory.{write_at, length-write_at, length-slice}

-- The positions lie in the array, and the array is short enough that no `size_t` sum wraps.
pub record InBounds (size : ℕ) (sb : StagingBuffer) : Type 0 where
  pub write_in : sb.write_pos ≤ size
  pub committed_in : sb.committed ≤ size
  pub read_in : sb.read_pos ≤ size
  pub allocated : length sb.mem ≡ size
  pub small : size ≤ 2 ^ 62
  pub header_fits : entry_header_size ≤ size

pub staging_buffer_create-InBounds :
    (size id : ℕ) (sb : StagingBuffer)
    → entry_header_size ≤ size
    → size ≤ 2 ^ 62
    → staging_buffer_create size true id ≡ some sb
    → InBounds size sb × (staging_available size sb ≡ 0)
unfolding staging_buffer_create staging_available
staging_buffer_create-InBounds size id sb lo hi e = ground (arith, length-replicate {A = ℕ} size 0)

module _ (size : ℕ) {sb : StagingBuffer} (v : InBounds size sb) where
  -- Where the positions lie within the buffer, the bytes that a reservation hands out do too, at the
  -- write position or at the start, and the position behind them is where the next one begins.
  pub staging_reserve_range :
      (n off : ℕ)
      → n ≤ 2 ^ 62
      → (staging_reserve size sb n).0 ≡ some off
      → (off + n ≤ size)
        × ((off ≡ sb.write_pos) ⊎ (off ≡ 0))
        × ((staging_reserve size sb n).1.write_pos ≡ off + n)
  unfolding staging_reserve
  staging_reserve_range n off small e = ground arith

  pub staging_reserve-InBounds : (n : ℕ) → n ≤ 2 ^ 62 → InBounds size (staging_reserve size sb n).1
  unfolding staging_reserve
  staging_reserve-InBounds n small = ground (arith, length-write_at sb.mem sb.write_pos wrap_marker)

  staging_commit-InBounds : (n : ℕ) → InBounds size (staging_commit size sb n)
  unfolding staging_commit
  staging_commit-InBounds n = ground arith

  staging_adjust_reservation-InBounds :
      (r a : ℕ) → r ≤ sb.write_pos → InBounds size (staging_adjust_reservation size sb r a)
  unfolding staging_adjust_reservation
  staging_adjust_reservation-InBounds r a h = ground arith

  staging_consume-InBounds :
      (n : ℕ) → n ≤ staging_available size sb → InBounds size (staging_consume size sb n)
  unfolding staging_consume staging_available
  staging_consume-InBounds n h = ground arith

  -- Where the positions lie within the buffer, a read copies at most what was asked for and what is
  -- available, from within the buffer.
  pub length-staging_read :
      (n : ℕ)
      → (length (staging_read size sb n) ≤ n)
        × (length (staging_read size sb n) ≤ staging_available size sb)
        × (sb.read_pos + length (staging_read size sb n) ≤ size)
  unfolding staging_read staging_available
  length-staging_read n = ground (
    arith,
    length-slice sb.mem sb.read_pos n,
    length-slice sb.mem sb.read_pos (staging_available size sb),
  )

-- What the two threads do to the buffer, an operation at a time: the producer reserves, stores,
-- gives back and commits; the consumer consumes at most what is available, and wraps.
pub data Step (size : ℕ) : StagingBuffer → StagingBuffer → Type 0 where
  reserve : {sb : StagingBuffer} (n : ℕ) → n ≤ 2 ^ 62 → Step size sb ((staging_reserve size sb n).1)
  store :
      {sb : StagingBuffer} (p : ℕ) (bs : List ℕ)
      → Step size sb (record sb { mem = write_at sb.mem p bs })
  adjust :
      {sb : StagingBuffer} (r a : ℕ)
      → r ≤ sb.write_pos
      → Step size sb (staging_adjust_reservation size sb r a)
  commit : {sb : StagingBuffer} (n : ℕ) → Step size sb (staging_commit size sb n)
  consume :
      {sb : StagingBuffer} (n : ℕ)
      → n ≤ staging_available size sb
      → Step size sb (staging_consume size sb n)
  wrap : {sb : StagingBuffer} → Step size sb (staging_wrap_read_pos size sb)
  reset : {sb : StagingBuffer} → Step size sb (staging_reset size sb)

pub data Reach (size : ℕ) (sb : StagingBuffer) : StagingBuffer → Type 0 where
  here : Reach size sb sb
  next : {t u : StagingBuffer} → Reach size sb t → Step size t u → Reach size sb u

Step-InBounds :
    (size : ℕ) {sb t : StagingBuffer} → Step size sb t → InBounds size sb → InBounds size t
unfolding staging_wrap_read_pos staging_reset
Step-InBounds size (reserve n h) v = staging_reserve-InBounds size v n h
Step-InBounds size (store {sb} p bs) v = omega (arith, length-write_at sb.mem p bs)
Step-InBounds size (adjust r a h) v = staging_adjust_reservation-InBounds size v r a h
Step-InBounds size (commit n) v = staging_commit-InBounds size v n
Step-InBounds size (consume n h) v = staging_consume-InBounds size v n h
Step-InBounds size wrap v = omega arith
Step-InBounds size reset v = omega arith

-- From a buffer of at most 2^62 bytes whose positions lie within it, however the operations of the
-- two threads interleave, no position leaves the buffer, also across wrap-arounds.
pub Reach-InBounds :
    (size : ℕ) {sb t : StagingBuffer} → InBounds size sb → Reach size sb t → InBounds size t
Reach-InBounds size v here = v
Reach-InBounds size v (next r s) = Step-InBounds size s (Reach-InBounds size v r)
