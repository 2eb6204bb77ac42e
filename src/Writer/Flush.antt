-- ===== src/Writer/Flush.antt =====
-- src/binary_writer.c: flushing a buffer and waiting keep what has been written.
use cnano_log.Base.{
  ℕ, ◌≤◌, ◌≡◌, refl, ap, sym, List, [], ◌∷◌, ◌++◌, Option, some, none, true, ◌==◌, ==_iff, arith,
  length, length-append, append_assoc, append-nil, length-take, Bool-cases, inl, inr,
}
use cnano_log.Writer.{
  Aio, Writer, Status, ok, failed, ◌>>=◌, next_call, after_call, file_write, buffer, aio_bytes,
  wait_on, wait_for_aio, start_aio, async_flush_buffer,
}
use cnano_log.Writer.Content.{
  flight_of, buffered, content, IsValid, Wrote, next_call-Fails, next_call-Keeps, no_call,
  >>=-Wrote,
}

file_write-append : (f bs : List ℕ) → file_write f (length f) bs ≡ f ++ bs
unfolding file_write
file_write-append [] bs = refl
file_write-append (x ∷ f) bs = ap (λ r. x ∷ r) (file_write-append f bs)

-- The file after the asynchronous write `a`.
abbrev landed : Writer → Aio → Writer
landed w a = record w {
  file = file_write w.file a.aio_offset (aio_bytes w a);
  outstanding = none;
  calls = after_call w;
}

length-aio_bytes :
    (w : Writer) (a : Aio)
    → a.aio_nbytes ≤ length (buffer w a.aio_buf)
    → length (aio_bytes w a) ≡ a.aio_nbytes
length-aio_bytes w a h = omega (arith, length-take a.aio_nbytes (buffer w a.aio_buf))

landed-Wrote :
    (w : Writer) (a : Aio)
    → IsValid w
    → w.outstanding ≡ some a
    → next_call w ≡ true
    → Wrote w [] (ok (landed w a))
landed-Wrote w a v e good =
    let (other, place, total, enough) = rw e at v.aio in
    let whole : file_write w.file a.aio_offset (aio_bytes w a) ≡ w.file ++ aio_bytes w a =
      rw place (file_write-append w.file (aio_bytes w a)) in
    (
      record {
        index = v.index;
        used = v.used;
        fits = v.fits;
        aio = rw whole (
            omega
              (arith, length-append w.file (aio_bytes w a), length-aio_bytes w a enough, total));
      },
      rw (e, whole, append-nil (w.file ++ (aio_bytes w a ++ buffered w)))
          (append_assoc w.file (aio_bytes w a) (buffered w)),
      refl,
      refl,
      next_call-Keeps w good,
    )

-- No write is under way.
abbrev pub Settled : Status → Type 0
Settled (failed _) = Unit
Settled (ok w) = w.outstanding ≡ none

wait_on-Wrote :
    (w : Writer) (o : Option Aio)
    → IsValid w
    → w.outstanding ≡ o
    → Wrote w [] (wait_on w o) × Settled (wait_on w o)
unfolding wait_on
wait_on-Wrote w none v e = ((v, sym (append-nil (content w)), refl, refl, no_call), e)
wait_on-Wrote w (some a) v e = elim (Bool-cases (next_call w)) [
  | inl good ↦ rw good (landed-Wrote w a v e good, refl)
  | inr bad ↦ rw bad (next_call-Fails w bad, tt)
]

-- A wait that succeeds puts the bytes under way into the file.
pub wait_for_aio-Wrote :
    (w : Writer) → IsValid w → Wrote w [] (wait_for_aio w) × Settled (wait_for_aio w)
unfolding wait_for_aio
wait_for_aio-Wrote w v = wait_on-Wrote w w.outstanding v refl

-- Starting an asynchronous write moves the buffered bytes under way; none may be under way before.
start_aio-Wrote : (w : Writer) → IsValid w → w.outstanding ≡ none → Wrote w [] (start_aio w)
unfolding start_aio
start_aio-Wrote w v e = elim (Bool-cases (next_call w)) [
  | inl good ↦
      let total : w.bytes_written ≡ length w.file = rw e at v.aio in
      let before : content w ≡ w.file ++ buffered w =
        ap (λ (o : Option Aio). w.file ++ (flight_of w o ++ buffered w)) e in
      rw (good, append-nil (content w), append-nil (buffered w))
        (
          record {
            index = omega (arith, v);
            used = omega arith;
            fits = omega arith;
            aio = (omega (arith, v), total, omega arith, v.used);
          },
          sym before,
          refl,
          refl,
          next_call-Keeps w good,
        )
  | inr bad ↦ rw bad (next_call-Fails w bad)
]

pub async_flush_buffer-Wrote : (w : Writer) → IsValid w → Wrote w [] (async_flush_buffer w)
unfolding async_flush_buffer
async_flush_buffer-Wrote w v = elim (Bool-cases (w.buffer_used == 0)) [
  | inl nothing ↦ rw nothing (v, sym (append-nil (content w)), refl, refl, no_call)
  | inr some_bytes ↦ rw some_bytes (
      >>=-Wrote w [] [] (wait_for_aio w) start_aio ((wait_for_aio-Wrote w v).0)
        (λ w' e v'. start_aio-Wrote w' v' (rw e at (wait_for_aio-Wrote w v).1)))
]

-- Nothing is buffered.
abbrev pub Emptied : Status → Type 0
Emptied (failed _) = Unit
Emptied (ok w) = w.buffer_used ≡ 0

start_aio-Emptied : (w : Writer) → Emptied (start_aio w)
unfolding start_aio
start_aio-Emptied w = elim (Bool-cases (next_call w)) [
  | inl good ↦ rw good refl
  | inr bad ↦ rw bad tt
]

pub wait_on-Emptied : (w : Writer) (o : Option Aio) → w.buffer_used ≡ 0 → Emptied (wait_on w o)
unfolding wait_on
wait_on-Emptied w none h = h
wait_on-Emptied w (some a) h = elim (Bool-cases (next_call w)) [
  | inl good ↦ rw good h
  | inr bad ↦ rw bad tt
]

>>=-Emptied :
    (m : Status) (f : Writer → Status)
    → ((w : Writer) → m ≡ ok w → Emptied (f w))
    → Emptied (m >>= f)
>>=-Emptied (failed w) f h = tt
>>=-Emptied (ok w) f h = h w refl

pub async_flush_buffer-Emptied : (w : Writer) → Emptied (async_flush_buffer w)
unfolding async_flush_buffer
async_flush_buffer-Emptied w = elim (Bool-cases (w.buffer_used == 0)) [
  | inl nothing ↦ rw nothing ((==_iff w.buffer_used 0).0 nothing)
  | inr some_bytes ↦
      rw some_bytes (>>=-Emptied (wait_for_aio w) start_aio (λ w' e. start_aio-Emptied w'))
]
