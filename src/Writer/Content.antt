-- ===== src/Writer/Content.antt =====
-- src/binary_writer.c: what has been written, wherever its bytes are.
use cnano_log.Base.{
  ℕ, ◌+◌, ◌-◌, ◌<◌, ◌≤◌, ◌≡◌, refl, ◌∙◌, List, [], ◌∷◌, ◌++◌, Option, some, none, Bool, true, false,
  length, append_assoc, take,
}
use cnano_log.Writer.{
  Aio, Writer, Status, ok, failed, ◌>>=◌, next_call, after_call, buffer, aio_bytes,
}

-- The bytes under way, and those in the active buffer.
abbrev pub flight_of : Writer → Option Aio → List ℕ
flight_of w none = []
flight_of w (some a) = aio_bytes w a

abbrev pub in_flight : Writer → List ℕ
in_flight w = flight_of w w.outstanding

abbrev pub buffered : Writer → List ℕ
buffered w = take w.buffer_used (buffer w w.active_buffer_idx)

-- Everything written so far: the file, what is under way to its end, and what is buffered.
abbrev pub content : Writer → List ℕ
content w = w.file ++ (in_flight w ++ buffered w)

-- The asynchronous write is of the other buffer, and goes to the end of the file.
abbrev pub AioFits : Writer → Option Aio → Type 0
AioFits w none = w.bytes_written ≡ length w.file
AioFits w (some a) =
    (a.aio_buf ≡ 1 - w.active_buffer_idx)
    × (a.aio_offset ≡ length w.file)
    × (w.bytes_written ≡ length w.file + a.aio_nbytes)
    × (a.aio_nbytes ≤ length (buffer w a.aio_buf))

pub record IsValid (w : Writer) : Type 0 where
  pub index : w.active_buffer_idx < 2
  pub used : w.buffer_used ≤ length (buffer w w.active_buffer_idx)
  pub aio : AioFits w w.outstanding
  pub fits : w.buffer_used ≤ w.buffer_size

-- System calls that all succeed: the outcomes still to come before and after them. The calls beyond
-- the list succeed as well.
pub data Succeed : List Bool → List Bool → Type 0 where
  no_call : {cs : List Bool} → Succeed cs cs
  call : {cs ds : List Bool} → Succeed cs ds → Succeed (true ∷ cs) ds

pub Succeed-trans : {bs cs ds : List Bool} → Succeed bs cs → Succeed cs ds → Succeed bs ds
Succeed-trans no_call q = q
Succeed-trans (call p) q = call (Succeed-trans p q)

-- With no outcome in the list, none is left over.
pub Succeed-nil : {bs cs : List Bool} → Succeed bs cs → bs ≡ [] → cs ≡ []
Succeed-nil no_call e = e
Succeed-nil (call p) e = absurd cc

-- The calls that a step made succeeded.
abbrev pub Keeps : Writer → Writer → Type 0
Keeps w w' = Succeed w.calls w'.calls

-- The last call that a step made failed, and the ones before it succeeded.
abbrev pub Fails : Writer → Writer → Type 0
Fails w w' = Succeed w.calls (false ∷ w'.calls)

-- After a step that succeeds the writer is valid, has written the bytes `more` besides, and the
-- system calls succeeded; a step fails where a system call of it fails, the first that does.
abbrev pub Wrote : Writer → List ℕ → Status → Type 0
Wrote w more (failed w') = Fails w w'
Wrote w more (ok w') =
    IsValid w'
    × (content w' ≡ content w ++ more)
    × (w'.buffer_size ≡ w.buffer_size)
    × (w'.entries_written ≡ w.entries_written)
    × Keeps w w'

pub next_call-Keeps : (w : Writer) → next_call w ≡ true → Succeed w.calls (after_call w)
unfolding next_call after_call
next_call-Keeps w h = go w.calls h
  where
    go :
        (cs : List Bool)
        → elim cs [ [] ↦ true | c ∷ ds ↦ c ] ≡ true
        → Succeed cs (elim cs [ [] ↦ [] | c ∷ ds ↦ ds ])
    go [] e = no_call
    go (true ∷ cs) e = call no_call
    go (false ∷ cs) e = absurd cc

pub next_call-Fails : (w : Writer) → next_call w ≡ false → Succeed w.calls (false ∷ after_call w)
unfolding next_call after_call
next_call-Fails w h = go w.calls h
  where
    go :
        (cs : List Bool)
        → elim cs [ [] ↦ true | c ∷ ds ↦ c ] ≡ false
        → Succeed cs (false ∷ elim cs [ [] ↦ [] | c ∷ ds ↦ ds ])
    go [] e = absurd cc
    go (true ∷ cs) e = absurd cc
    go (false ∷ cs) e = no_call

-- Two steps after each other.
pub >>=-Wrote :
    (w : Writer) (xs ys : List ℕ) (m : Status) (f : Writer → Status)
    → Wrote w xs m
    → ((w' : Writer) → m ≡ ok w' → IsValid w' → Wrote w' ys (f w'))
    → Wrote w (xs ++ ys) (m >>= f)
>>=-Wrote w xs ys (failed w') f h k = h
>>=-Wrote w xs ys (ok w') f (v, c, s, n, g) k = then_ (f w') (k w' refl v)
  where
    then_ : (r : Status) → Wrote w' ys r → Wrote w (xs ++ ys) r
    then_ (failed u) q = Succeed-trans g q
    then_ (ok u) (v', c', s', n', g') =
        (v', c' ∙ rw c (append_assoc (content w) xs ys), s' ∙ s, n' ∙ n, Succeed-trans g g')
