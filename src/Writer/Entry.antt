-- ===== src/Writer/Entry.antt =====
-- src/binary_writer.c: what writing an entry appends.
use cnano_log.Base.{
  ℕ, zero, suc, ◌+◌, ◌^◌, ◌%◌, ◌<◌, ◌≤◌, ◌≡◌, refl, ◌∙◌, sym, List, ◌++◌, append_assoc, append-nil,
  length, length-take, take, arith, Option, some, none, ltb, lt→ltb, if◌then◌else◌,
}
use cnano_log.Base.Bytes.{le_bytes}
use cnano_log.Writer.{
  Aio, Writer, Status, ok, failed, ◌>>=◌, buffer_write, entry_header, binwriter_write_entry,
}
use cnano_log.Writer.Content.{
  no_call, IsValid, AioFits, Fails, Keeps, Succeed-trans, Wrote, content,
}
use cnano_log.Writer.Append.{buffer_write-Wrote}

-- After an entry that is written the writer is valid, holds its bytes besides, and has counted it.
abbrev pub WroteEntry : Writer → List ℕ → Status → Type 0
WroteEntry w more (failed w') = Fails w w'
WroteEntry w more (ok w') =
    IsValid w'
    × (content w' ≡ content w ++ more)
    × (w'.buffer_size ≡ w.buffer_size)
    × (w'.entries_written ≡ (w.entries_written + 1) % 2 ^ 32)
    × Keeps w w'

length-entry_header : (id time n : ℕ) → length (entry_header id time n) ≡ 14
unfolding entry_header le_bytes
length-entry_header id time n = refl

entry_then :
    (w : Writer) (xs ys : List ℕ) (m : Status) (f : Writer → Status)
    → Wrote w xs m
    → ((w' : Writer) → m ≡ ok w' → IsValid w' → WroteEntry w' ys (f w'))
    → WroteEntry w (xs ++ ys) (m >>= f)
entry_then w xs ys (failed w') f h k = h
entry_then w xs ys (ok w') f (v, c, s, n, g) k = then_ (f w') (k w' refl v)
  where
    then_ : (r : Status) → WroteEntry w' ys r → WroteEntry w (xs ++ ys) r
    then_ (failed u) q = Succeed-trans g q
    then_ (ok u) (v', c', s', n', g') =
        (v', c' ∙ rw c (append_assoc (content w) xs ys), s' ∙ s, rw n at n', Succeed-trans g g')

fits_counted :
    (w : Writer) (k : ℕ) (o : Option Aio)
    → AioFits w o
    → AioFits (record w { entries_written = k }) o
fits_counted w k none v = v
fits_counted w k (some a) v = v

-- Counting the entry at the end.
abbrev counted : Writer → Status
counted w = ok (record w { entries_written = (w.entries_written + 1) % 2 ^ 32 })

entry_end : (w : Writer) (xs : List ℕ) (m : Status) → Wrote w xs m → WroteEntry w xs (m >>= counted)
entry_end w xs (failed u) h = h
entry_end w xs (ok u) (v, c, s, n, g) = (
  record {
    index = v.index;
    used = v.used;
    fits = v.fits;
    aio = fits_counted u ((u.entries_written + 1) % 2 ^ 32) u.outstanding v.aio;
  },
  c,
  s,
  rw n,
  g,
)

data_or_nothing :
    (w : Writer) (arg_data : List ℕ) (n : ℕ)
    → IsValid w
    → n ≤ w.buffer_size
    → Wrote w (take n arg_data) (if ltb 0 n then buffer_write w (take n arg_data) else ok w)
data_or_nothing w arg_data zero v h = (v, sym (append-nil (content w)), refl, refl, no_call)
data_or_nothing w arg_data (suc n) v h =
    rw (lt→ltb 0 (suc n) (omega arith))
      (buffer_write-Wrote w (take (suc n) arg_data) v (omega (arith, length-take (suc n) arg_data)))

-- Writing an entry to a valid writer whose buffers hold 64 KiB fails only where a system call that it
-- makes fails. Otherwise it appends the entry's header and the first `data_len` bytes of its data, keeps the writer
-- valid, and counts the entry modulo 2 ^ 32.
pub binwriter_write_entry-WroteEntry :
    (w : Writer) (log_id time : ℕ) (arg_data : List ℕ) (data_len : ℕ)
    → IsValid w
    → 2 ^ 16 ≤ w.buffer_size
    → data_len < 2 ^ 16
    → WroteEntry w
        (entry_header log_id time data_len ++ take data_len arg_data)
        (binwriter_write_entry w log_id time arg_data data_len)
unfolding binwriter_write_entry
binwriter_write_entry-WroteEntry w log_id time arg_data data_len v room short =
    let head = entry_header log_id time data_len in
    let first =
      buffer_write-Wrote w head v (omega (arith, length-entry_header log_id time data_len)) in
    entry_then w head (take data_len arg_data) (buffer_write w head)
      (λ w1.
        (if ltb 0 data_len then buffer_write w1 (take data_len arg_data) else ok w1) >>= counted)
      first
      (λ w1 e v1.
        let size : data_len ≤ w1.buffer_size = (let q = rw e at first in omega (arith, q.2)) in
        entry_end w1 (take data_len arg_data) _ (data_or_nothing w1 arg_data data_len v1 size))
