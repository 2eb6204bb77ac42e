-- ===== src/Writer/Rotate.antt =====
-- src/binary_writer.c: `binwriter_rotate`, which ends the file and goes on in a new one.
use cnano_log.Base.{
  ℕ, ◌+◌, ◌^◌, ◌≤◌, ◌≡◌, refl, List, [], ◌++◌, append-nil, none, Bool-cases, ◌⊎◌, inl, inr,
  if◌then◌else◌, length, arith,
}
use cnano_log.Registry.{LogSite}
use cnano_log.Writer.{
  Writer, Status, ok, failed, ◌>>=◌, next_call, after_call, write_fd, file_write, file_header,
  binwriter_write_header,
}
use cnano_log.Writer.Content.{
  IsValid, Fails, Keeps, Succeed-trans, next_call-Fails, next_call-Keeps, content,
}
use cnano_log.Writer.Pieces.{dictionary_bytes}
use cnano_log.Writer.Close.{Leaves, binwriter_close-Leaves}
use cnano_log.Writer.Dictionary.{CustomLevel, binwriter_close}

-- `open` and then `fopen` of the new path, which empty the file, each as a call that may fail.
unfoldable pub open_call : Writer → Status
open_call w =
    if next_call w
    then ok (record w { calls = after_call w })
    else failed (record w { calls = after_call w })

-- The state for the new file.
unfoldable pub reset_writer : Writer → Writer
reset_writer w = record w {
  buffer_used = 0;
  active_buffer_idx = 0;
  outstanding = none;
  entries_written = 0;
  bytes_written = 0;
  file = [];
  fd_offset = 0;
}

unfoldable pub open_next : Writer → ℕ → ℕ → ℕ → ℕ → Status
unfolding open_call reset_writer
open_next w frequency start sec nsec = open_call w >>= λ w1.
    open_call w1 >>= λ w2. binwriter_write_header (reset_writer w2) frequency start sec nsec

-- The writer, and what the file that is left behind holds. Up to the close of the old file the steps
-- are those of `binwriter_close`.
abbrev pub next_file : Status → (Writer → Status) → Status × List ℕ
next_file (failed w) f = (failed w, w.file)
next_file (ok w) f = (f w, w.file)

unfoldable pub binwriter_rotate :
    Writer → List LogSite → List CustomLevel → ℕ → ℕ → ℕ → ℕ → Status × List ℕ
unfolding open_next
binwriter_rotate w sites levels frequency start sec nsec =
    next_file (binwriter_close w sites levels) (λ u. open_next u frequency start sec nsec)

-- A step from `w` that leaves a valid writer which has written these bytes to a new file and counts
-- no entry yet, or fails where the first system call does that fails.
abbrev pub Starts : Writer → List ℕ → Status → Type 0
Starts w head (failed w') = Fails w w'
Starts w head (ok w') = (IsValid w' × (content w' ≡ head)) × ((w'.entries_written ≡ 0) × Keeps w w')

Starts-after :
    (w u : Writer) (head : List ℕ) (m : Status) → Keeps w u → Starts u head m → Starts w head m
Starts-after w u head (failed z) g h = Succeed-trans g h
Starts-after w u head (ok z) g (v, (n, g')) = (v, (n, Succeed-trans g g'))

Starts-open :
    (w : Writer) (head : List ℕ) (f : Writer → Status)
    → ((u : Writer) → Starts u head (f u))
    → Starts w head (open_call w >>= f)
unfolding open_call
Starts-open w head f h = elim (Bool-cases (next_call w)) [
  | inl good ↦
      let u : Writer = record w { calls = after_call w } in
      rw good (Starts-after w u head (f u) (next_call-Keeps w good) (h u))
  | inr bad ↦ rw bad (next_call-Fails w bad)
]

Starts-header :
    (w : Writer) (freq start sec nsec : ℕ)
    → Starts w
        (file_header freq start sec nsec 0 0)
        (binwriter_write_header (reset_writer w) freq start sec nsec)
unfolding reset_writer binwriter_write_header write_fd file_write next_call after_call
Starts-header w freq start sec nsec =
    let head = file_header freq start sec nsec 0 0 in
    elim (Bool-cases (next_call w)) [
      | inl good ↦ rw good (
        (
          record { index = omega arith; used = omega arith; aio = omega arith; fits = omega arith },
          append-nil head,
        ),
        (refl, next_call-Keeps w good),
      )
      | inr bad ↦ rw bad (next_call-Fails w bad)
    ]

-- A rotation's result, and the file it leaves behind: it fails before the old file is closed, or it
-- closes the old file and then starts the new one or fails in that.
abbrev pub Rotates : Writer → List ℕ → List ℕ → List ℕ → Status × List ℕ → Type 0
Rotates w old new head (r, file) =
    (u : Writer) × (((r ≡ failed u) × Fails w u)
      ⊎ (Leaves w old new (ok u) × ((file ≡ u.file) × Starts u head r)))

Rotates-Leaves :
    (w : Writer) (old new head : List ℕ) (m : Status) (f : Writer → Status)
    → Leaves w old new m
    → ((u : Writer) → Starts u head (f u))
    → Rotates w old new head (next_file m f)
Rotates-Leaves w old new head (failed u) f h k = (u, inl (refl, h))
Rotates-Leaves w old new head (ok u) f h k = (u, inr (h, (refl, k u)))

-- A rotation fails only where a system call fails whose result is tested, the first such call of the
-- close of the old file or, once that is closed, of the start of the new one. The old file is then
-- as closing it leaves it: with the entries and the dictionaries and, unless both fflush and fclose
-- fail, the header with the entries' count and the dictionary's offset. After a success the writer
-- is valid, holds the new file's header and nothing else, and counts no entry. The writer is valid
-- before, its buffers hold 64 KiB, and it has written a header and entries.
pub binwriter_rotate-Rotates :
    (w : Writer) (sites : List LogSite) (levels : List CustomLevel)
    (freq start sec nsec freq' start' sec' nsec' : ℕ) (entries : List ℕ)
    → IsValid w
    → 2 ^ 16 ≤ w.buffer_size
    → content w ≡ file_header freq start sec nsec 0 0 ++ entries
    → Rotates w
        (file_header freq start sec nsec 0 0 ++ (entries ++ dictionary_bytes sites levels))
        (file_header freq start sec nsec (64 + length entries) w.entries_written
          ++ (entries ++ dictionary_bytes sites levels))
        (file_header freq' start' sec' nsec' 0 0)
        (binwriter_rotate w sites levels freq' start' sec' nsec')
unfolding binwriter_rotate open_next
binwriter_rotate-Rotates w sites levels freq start sec nsec freq' start' sec' nsec' entries v room
      e =
    Rotates-Leaves w _ _ (file_header freq' start' sec' nsec' 0 0) (binwriter_close w sites levels)
      (λ u. open_next u freq' start' sec' nsec')
      (binwriter_close-Leaves w sites levels freq start sec nsec entries v room e)
      (λ u.
        Starts-open u _ _
          (λ u1. Starts-open u1 _ _ (λ u2. Starts-header u2 freq' start' sec' nsec')))
