-- ===== src/Writer/Session.antt =====
-- src/binary_writer.c: a whole log file, from binwriter_create to binwriter_close.
use cnano_log.Base.{
  ℕ, suc, ◌+◌, ◌^◌, ◌<◌, ◌≤◌, ◌≡◌, refl, ◌∙◌, sym, List, [], ◌∷◌, ◌++◌, append_assoc, append-nil,
  length, take_all, arith, Bool, true, false, some, none, Bool-cases, inl, inr, All,
}
use cnano_log.Registry.{LogSite}
use cnano_log.Writer.{
  Writer, Status, ok, failed, ◌>>=◌, file_header, entry_header, new_writer, binwriter_create,
  after_call, binwriter_write_header, binwriter_write_entry, write_fd, file_write, next_call,
}
use cnano_log.Writer.Content.{
  IsValid, Succeed, Fails, next_call-Fails, next_call-Keeps, no_call, Keeps, Succeed-trans, Wrote,
  content,
}
use cnano_log.Writer.Dictionary.{CustomLevel, binwriter_close}
use cnano_log.Writer.Entry.{WroteEntry, binwriter_write_entry-WroteEntry}
use cnano_log.Writer.Close.{Leaves, MayKeep, Wrote-MayKeep, >>=-Leaves, binwriter_close-Leaves}
use cnano_log.Writer.Pieces.{dictionary_bytes}

-- An entry as it is handed to binwriter_write_entry.
pub record Entry : Type 0 where
  pub log_id : ℕ
  pub timestamp : ℕ
  pub arg_data : List ℕ

abbrev pub IsEntry : Entry → Type 0
IsEntry e = length e.arg_data < 2 ^ 16

abbrev pub entry_bytes : Entry → List ℕ
entry_bytes e = entry_header e.log_id e.timestamp (length e.arg_data) ++ e.arg_data

abbrev pub entries_bytes : List Entry → List ℕ
entries_bytes [] = []
entries_bytes (e ∷ es) = entry_bytes e ++ entries_bytes es

abbrev pub write_entry : Writer → Entry → Status
write_entry w e = binwriter_write_entry w e.log_id e.timestamp e.arg_data (length e.arg_data)

unfoldable pub write_entries : Writer → List Entry → Status
write_entries w [] = ok w
write_entries w (e ∷ es) = write_entry w e >>= λ w'. write_entries w' es

-- Creating a writer makes two calls, which succeed, and gives the new writer; or it gives none.
binwriter_create-new_writer :
    (size : ℕ) (alloc_ok : Bool) (calls : List Bool) (w : Writer)
    → binwriter_create size alloc_ok calls ≡ some w
    → (cs : List Bool) × ((w ≡ new_writer size cs) × Succeed calls cs)
unfolding binwriter_create new_writer
binwriter_create-new_writer size false calls w e = absurd cc
binwriter_create-new_writer size true calls w e =
    let opening = new_writer size calls in
    let opened = new_writer size (after_call opening) in
    elim (Bool-cases (next_call opening)) [
      | inl first ↦ elim (Bool-cases (next_call opened)) [
        | inl second ↦ (
          after_call opened,
          (
            let e' : some (new_writer size (after_call opened)) ≡ some w =
                  rw (first, second) at e in
                cc,
            Succeed-trans (next_call-Keeps opening first) (next_call-Keeps opened second),
          ),
        )
        | inr bad ↦ let e' : none ≡ some w = rw (first, bad) at e in absurd cc
      ]
      | inr bad ↦ let e' : none ≡ some w = rw bad at e in absurd cc
    ]

-- Writing the header and the entries with the writer that binwriter_create returned, and closing.
unfoldable pub session :
    ℕ → List Bool → ℕ → ℕ → ℕ → ℕ → List Entry → List LogSite → List CustomLevel → Status
unfolding write_entries
session size calls freq start sec nsec es sites levels =
    binwriter_write_header (new_writer size calls) freq start sec nsec >>= λ w.
    write_entries w es >>= λ w'. binwriter_close w' sites levels

-- Several entries written.
abbrev WroteEntries : Writer → ℕ → List ℕ → Status → Type 0
WroteEntries w n more (failed w') = Fails w w'
WroteEntries w n more (ok w') =
    IsValid w'
    × (content w' ≡ content w ++ more)
    × (w'.buffer_size ≡ w.buffer_size)
    × (w'.entries_written ≡ w.entries_written + n)
    × Keeps w w'

entries_then :
    (w : Writer) (n : ℕ) (xs ys : List ℕ) (m : Status) (f : Writer → Status)
    → w.entries_written + suc n < 2 ^ 32
    → WroteEntry w xs m
    → ((w' : Writer) → m ≡ ok w' → WroteEntries w' n ys (f w'))
    → WroteEntries w (suc n) (xs ++ ys) (m >>= f)
entries_then w n xs ys (failed u) f few h k = h
entries_then w n xs ys (ok u) f few (v, c, s, e, g) k = then_ (f u) (k u refl)
  where
    then_ : (r : Status) → WroteEntries u n ys r → WroteEntries w (suc n) (xs ++ ys) r
    then_ (failed z) q = Succeed-trans g q
    then_ (ok z) (v', c', s', e', g') = (
      v',
      c' ∙ rw c (append_assoc (content w) xs ys),
      s' ∙ s,
      omega (arith, e', e),
      Succeed-trans g g',
    )

write_entries-WroteEntries :
    (w : Writer) (es : List Entry)
    → IsValid w
    → 2 ^ 16 ≤ w.buffer_size
    → All IsEntry es
    → w.entries_written + length es < 2 ^ 32
    → WroteEntries w (length es) (entries_bytes es) (write_entries w es)
unfolding write_entries
write_entries-WroteEntries w [] v room h few =
    (v, sym (append-nil (content w)), refl, omega arith, no_call)
write_entries-WroteEntries w (e ∷ es) v room (short, h) few =
    let one =
      binwriter_write_entry-WroteEntry w e.log_id e.timestamp e.arg_data (length e.arg_data) v room
        short in
    let one' : WroteEntry w (entry_bytes e) (write_entry w e) =
      rw (take_all (length e.arg_data) e.arg_data refl) at one in
    entries_then w (length es) (entry_bytes e) (entries_bytes es) (write_entry w e)
      (λ w'. write_entries w' es) few one'
      (λ w' eq.
        let (v', c, s, n, g) = rw eq at one' in
        write_entries-WroteEntries w' es v' (omega arith) h (omega (arith, n)))

-- The header goes to the start of the new file.
binwriter_write_header-Wrote :
    (size : ℕ) (calls : List Bool) (freq start sec nsec : ℕ)
    → Wrote
        (new_writer size calls)
        (file_header freq start sec nsec 0 0)
        (binwriter_write_header (new_writer size calls) freq start sec nsec)
unfolding new_writer binwriter_write_header write_fd file_write
binwriter_write_header-Wrote size calls freq start sec nsec =
    let w = new_writer size calls in
    let head = file_header freq start sec nsec 0 0 in
    elim (Bool-cases (next_call w)) [
      | inl good ↦ rw good (
        record { index = omega arith; used = omega arith; aio = omega arith; fits = omega arith },
        append-nil head,
        refl,
        refl,
        next_call-Keeps w good,
      )
      | inr bad ↦ rw bad (next_call-Fails w bad)
    ]

WroteEntries-MayKeep :
    (w : Writer) (n : ℕ) (xs : List ℕ) (m : Status) → WroteEntries w n xs m → MayKeep w m
WroteEntries-MayKeep w n xs (failed u) h = h
WroteEntries-MayKeep w n xs (ok u) (v, c, s, e, g) = g

pub session-Leaves :
    (size : ℕ) (calls : List Bool) (freq start sec nsec : ℕ) (es : List Entry)
    (sites : List LogSite) (levels : List CustomLevel)
    → 2 ^ 16 ≤ size
    → All IsEntry es
    → length es < 2 ^ 32
    → Leaves
        (new_writer size calls)
        (file_header freq start sec nsec 0 0 ++ (entries_bytes es ++ dictionary_bytes sites levels))
        (file_header freq start sec nsec (64 + length (entries_bytes es)) (length es)
          ++ (entries_bytes es ++ dictionary_bytes sites levels))
        (session size calls freq start sec nsec es sites levels)
unfolding session new_writer
session-Leaves size calls freq start sec nsec es sites levels room h few =
    let w = new_writer size calls in
    let first = binwriter_write_header-Wrote size calls freq start sec nsec in
    >>=-Leaves w _ _ (binwriter_write_header w freq start sec nsec)
      (λ w1. write_entries w1 es >>= λ w'. binwriter_close w' sites levels)
      (Wrote-MayKeep w _ (binwriter_write_header w freq start sec nsec) first)
      (λ w1 e1.
        let (v1, c1, s1, n1, g1) = rw e1 at first in
        let second =
          write_entries-WroteEntries w1 es v1 (omega (arith, s1)) h (omega (arith, n1)) in
        >>=-Leaves w1 _ _ (write_entries w1 es) (λ w'. binwriter_close w' sites levels)
          (WroteEntries-MayKeep w1 (length es) _ (write_entries w1 es) second)
          (λ w2 e2.
            let (v2, c2, s2, n2, g2) = rw e2 at second in
            let count : w2.entries_written ≡ length es = omega (arith, n1, n2) in
            rw (sym count) (
              binwriter_close-Leaves w2 sites levels freq start sec nsec (entries_bytes es) v2
                (omega (arith, s1, s2)) (c2 ∙ rw c1))))
