-- ===== src/Writer/Append.antt =====
-- src/binary_writer.c: a buffered write appends its bytes to what has been written.
use cnano_log.Base.{
  ℕ, ◌+◌, ◌-◌, ◌<◌, ◌≤◌, ◌≡◌, refl, List, [], ◌++◌, Option, some, none, ltb, arith, length,
  length-append, append_assoc, take, length-take, take_all, Bool-cases, inl, inr, le→ltb_false,
}
use cnano_log.Writer.{Aio, Writer, ok, buffer, async_flush_buffer, append_active, buffer_write}
use cnano_log.Writer.Content.{
  no_call, flight_of, in_flight, buffered, content, AioFits, IsValid, Wrote, >>=-Wrote,
}
use cnano_log.Writer.Flush.{async_flush_buffer-Wrote, async_flush_buffer-Emptied}

buffer-append_active :
    (w : Writer) (bytes : List ℕ)
    → buffer (append_active w bytes) w.active_buffer_idx ≡ buffered w ++ bytes
unfolding append_active
buffer-append_active w bytes = ground arith

buffer-append_active_other :
    (w : Writer) (bytes : List ℕ) (k : ℕ)
    → w.active_buffer_idx < 2
    → k ≡ 1 - w.active_buffer_idx
    → buffer (append_active w bytes) k ≡ buffer w k
unfolding append_active
buffer-append_active_other w bytes k h e = ground arith

-- The bytes under way stand in the other buffer, which is left alone.
flight-append_active :
    (w : Writer) (bytes : List ℕ) (o : Option Aio)
    → w.active_buffer_idx < 2
    → AioFits w o
    → (AioFits (append_active w bytes) o) × (flight_of (append_active w bytes) o ≡ flight_of w o)
flight-append_active w bytes none h v = (unfold append_active in v, refl)
flight-append_active w bytes (some a) h v =
    let same = buffer-append_active_other w bytes a.aio_buf h v.0 in
    (
      (
        unfold append_active in v.0,
        unfold append_active in v.1,
        unfold append_active in v.2,
        rw same v.3,
      ),
      rw same,
    )

-- A store into the active buffer writes its bytes, and leaves those under way alone.
append_active-Wrote :
    (w : Writer) (bytes : List ℕ)
    → IsValid w
    → w.buffer_used + length bytes ≤ w.buffer_size
    → Wrote w bytes (ok (append_active w bytes))
append_active-Wrote w bytes v room =
    let (fits, same) = flight-append_active w bytes w.outstanding v.index v.aio in
    let own = buffer-append_active w bytes in
    let size : length (buffered w ++ bytes) ≡ w.buffer_used + length bytes = omega (
      arith,
      length-append (buffered w) bytes,
      length-take w.buffer_used (buffer w w.active_buffer_idx),
      v,
    ) in
    let all : take (w.buffer_used + length bytes) (buffered w ++ bytes) ≡ buffered w ++ bytes =
      take_all (w.buffer_used + length bytes) (buffered w ++ bytes) size in
    let used : w.buffer_used + length bytes
        ≤ length (buffer (append_active w bytes) w.active_buffer_idx) =
      rw own (omega arith) in
    let whole : w.file ++ (flight_of w w.outstanding ++ (buffered w ++ bytes))
        ≡ content w ++ bytes =
      rw (
        append_assoc w.file (in_flight w ++ buffered w) bytes,
        append_assoc (in_flight w) (buffered w) bytes,
      ) in
    let parts : w.file
          ++ (flight_of (append_active w bytes) w.outstanding
              ++ take (w.buffer_used + length bytes)
                  (buffer (append_active w bytes) w.active_buffer_idx))
        ≡ content w ++ bytes =
      rw (same, own, all) whole in
    unfold append_active in
    (record { index = v.index; used = used; aio = fits; fits = room }, parts, refl, refl, no_call)

-- A buffered write to a valid writer, of data that fit a buffer, fails only where a system call that
-- it makes fails, the first such call. Otherwise it appends exactly its bytes to what was written,
-- whatever is flushed on the way, and keeps the writer valid, the size of its buffers and its count
-- of entries; and all the system calls that it made succeeded.
pub buffer_write-Wrote :
    (w : Writer) (bytes : List ℕ)
    → IsValid w
    → length bytes ≤ w.buffer_size
    → Wrote w bytes (buffer_write w bytes)
unfolding buffer_write
buffer_write-Wrote w bytes v fits =
    rw (le→ltb_false w.buffer_size (length bytes) fits)
      (elim (Bool-cases (ltb w.buffer_size (w.buffer_used + length bytes))) [
        | inl full ↦ rw full (
            >>=-Wrote w [] bytes (async_flush_buffer w) (λ w'. ok (append_active w' bytes))
              (async_flush_buffer-Wrote w v)
              (λ w' e v'.
                let empty : w'.buffer_used ≡ 0 = rw e at (async_flush_buffer-Emptied w) in
                let same = (let q = rw e at (async_flush_buffer-Wrote w v) in q.2) in
                append_active-Wrote w' bytes v' (omega arith)))
        | inr room ↦ rw room (append_active-Wrote w bytes v (ground arith))
      ])
