-- ===== src/Writer/Close.antt =====
-- src/binary_writer.c: what a file is after it was closed.
use cnano_log.Base.{
  ℕ, ◌+◌, ◌^◌, ◌≤◌, ◌≡◌, refl, ◌∙◌, sym, ap, List, [], ◌∷◌, ◌++◌, append_assoc, append-nil, length,
  length-append, take, take-append, drop, arith, none, Bool, false, ◌⊎◌, Bool-cases, inl, inr, ltb,
  le→ltb_false,
}
use cnano_log.Base.Bytes.{le_bytes}
use cnano_log.Registry.{LogSite}
use cnano_log.Writer.{
  Writer, Status, ok, failed, ◌>>=◌, file_header, binwriter_flush, wait_for_aio, async_flush_buffer,
  file_write, next_call, after_call,
}
use cnano_log.Writer.Content.{
  IsValid, Fails, Keeps, Succeed, Succeed-trans, next_call-Fails, next_call-Keeps, Wrote, content,
  >>=-Wrote,
}
use cnano_log.Writer.Flush.{
  Emptied, wait_on-Emptied, async_flush_buffer-Emptied, Settled, async_flush_buffer-Wrote,
  wait_for_aio-Wrote,
}
use cnano_log.Writer.Dictionary.{
  CustomLevel, write_dictionary, updated_header, skip_call, close_file, update_header,
  binwriter_close,
}
use cnano_log.Writer.Pieces.{dictionary_bytes, write_dictionary-Wrote}

-- Everything is in the file, and it is as long as the count of written bytes says.
abbrev Flushed : Status → Type 0
Flushed (failed _) = Unit
Flushed (ok w) = (content w ≡ w.file) × (w.bytes_written ≡ length w.file)

flushed : (w : Writer) → IsValid w → w.outstanding ≡ none → w.buffer_used ≡ 0 → Flushed (ok w)
flushed w v none_ empty = (rw (none_, empty) (append-nil w.file), rw none_ at v.aio)

Flushed-by : (w : Writer) (m : Status) → Wrote w [] m → Settled m → Emptied m → Flushed m
Flushed-by w (failed u) h s e = tt
Flushed-by w (ok u) h s e = flushed u h.0 s e

-- A flush, and the wait for it, leave everything in the file.
flush_and_wait :
    (w : Writer)
    → IsValid w
    → Wrote w [] (binwriter_flush w >>= wait_for_aio) × Flushed (binwriter_flush w >>= wait_for_aio)
unfolding binwriter_flush wait_for_aio
flush_and_wait w v =
    let first = async_flush_buffer-Wrote w v in
    (
      >>=-Wrote w [] [] (async_flush_buffer w) wait_for_aio first
          (λ u e vu. (wait_for_aio-Wrote u vu).0),
      after_flush (async_flush_buffer w) first (async_flush_buffer-Emptied w),
    )
  where
    after_flush : (m : Status) → Wrote w [] m → Emptied m → Flushed (m >>= wait_for_aio)
    after_flush (failed u) h e = tt
    after_flush (ok u) h e =
        let q = wait_for_aio-Wrote u h.0 in
        Flushed-by u (wait_for_aio u) q.0 q.1 (wait_on-Emptied u u.outstanding e)

file_write-start :
    (old new rest : List ℕ) → length old ≡ length new → file_write (old ++ rest) 0 new ≡ new ++ rest
unfolding file_write
file_write-start [] [] [] e = refl
file_write-start [] [] (x ∷ rest) e = refl
file_write-start [] (y ∷ new) rest e = absurd (omega (arith, e))
file_write-start (x ∷ old) [] rest e = absurd (omega (arith, e))
file_write-start (x ∷ old) (y ∷ new) rest e =
    ap (λ r. y ∷ r) (file_write-start old new rest (omega (arith, e)))

length-file_header :
    (freq start sec nsec offset count : ℕ)
    → length (file_header freq start sec nsec offset count) ≡ 64
unfolding file_header le_bytes
length-file_header freq start sec nsec offset count = refl

updated_header-file_header :
    (freq start sec nsec offset count : ℕ)
    → updated_header (file_header freq start sec nsec 0 0) offset count
      ≡ file_header freq start sec nsec offset count
unfolding updated_header file_header le_bytes
updated_header-file_header freq start sec nsec offset count = refl

-- Of the four calls that close a file, `fflush` and `fclose` fail.
abbrev pub Loses : List Bool → List Bool → Type 0
Loses cs ds = (synced : Bool) × (closed : Bool) × (cs ≡ false ∷ (synced ∷ (closed ∷ (false ∷ ds))))

-- The file after the four calls, which take their outcomes from `cs`: with the new header, or still
-- with the old one where both calls that store it fail.
abbrev pub Closed : List ℕ → List ℕ → List Bool → Writer → Type 0
Closed old new cs w = ((w.file ≡ new) × (w.calls ≡ drop 4 cs)) ⊎ ((w.file ≡ old) × Loses cs w.calls)

-- A step from `w` that makes calls which succeed and then closes the file, or fails where the first
-- of those calls fails.
abbrev pub Leaves : Writer → List ℕ → List ℕ → Status → Type 0
Leaves w old new (failed w') = Fails w w'
Leaves w old new (ok w') = (cs : List Bool) × (Succeed w.calls cs × Closed old new cs w')

calls-close_file : (w : Writer) (h : List ℕ) → (close_file w h).calls ≡ drop 4 w.calls
unfolding close_file after_call
calls-close_file w h = go w.calls
  where
    go : (cs : List Bool) → (close_file (record w { calls = cs }) h).calls ≡ drop 4 cs
    go [] = refl
    go (a ∷ []) = refl
    go (a ∷ (b ∷ [])) = refl
    go (a ∷ (b ∷ (c ∷ []))) = refl
    go (a ∷ (b ∷ (c ∷ (d ∷ cs)))) = refl

close_file-Loses :
    (w : Writer) (h : List ℕ)
    → next_call w ≡ false
    → next_call (skip_call (skip_call (skip_call w))) ≡ false
    → Loses w.calls (close_file w h).calls
unfolding close_file skip_call after_call next_call
close_file-Loses w h e e' = go w.calls e e'
  where
    go :
        (cs : List Bool)
        → next_call (record w { calls = cs }) ≡ false
        → next_call (skip_call (skip_call (skip_call (record w { calls = cs })))) ≡ false
        → Loses cs (close_file (record w { calls = cs }) h).calls
    go [] p q = absurd cc
    go (a ∷ []) p q = absurd cc
    go (a ∷ (b ∷ [])) p q = absurd cc
    go (a ∷ (b ∷ (c ∷ []))) p q = absurd cc
    go (a ∷ (b ∷ (c ∷ (d ∷ cs)))) p q = (b, c, rw (p, q) refl)

close_file-Closed :
    (w : Writer) (old new h : List ℕ)
    → w.file ≡ old
    → file_write w.file 0 h ≡ new
    → Closed old new w.calls (close_file w h)
close_file-Closed w old new h e e' =
    let later = next_call (skip_call (skip_call (skip_call w))) in
    elim (Bool-cases (next_call w)) [
      | inl stored ↦ inl (unfold close_file in rw stored e', calls-close_file w h)
      | inr kept ↦ elim (Bool-cases later) [
        | inl stored ↦ inl (unfold close_file in rw (kept, stored) e', calls-close_file w h)
        | inr lost ↦ inr (unfold close_file in rw (kept, lost) e, close_file-Loses w h kept lost)
      ]
    ]

update_header-Leaves :
    (w : Writer) (freq start sec nsec offset : ℕ) (rest : List ℕ)
    → w.file ≡ file_header freq start sec nsec 0 0 ++ rest
    → Leaves w
        (file_header freq start sec nsec 0 0 ++ rest)
        (file_header freq start sec nsec offset w.entries_written ++ rest)
        (update_header w offset)
unfolding update_header skip_call
update_header-Leaves w freq start sec nsec offset rest e =
    let old = file_header freq start sec nsec 0 0 in
    let new = file_header freq start sec nsec offset w.entries_written in
    let long : ltb (length w.file) 64 ≡ false =
      le→ltb_false (length w.file) 64 (
        rw e (omega (arith, length-append old rest, length-file_header freq start sec nsec 0 0))) in
    let first : take 64 (old ++ rest) ≡ old =
      rw (length-file_header freq start sec nsec 0 0) at (take-append old rest) in
    let same : take 64 w.file ≡ old = rw e first in
    let stored : file_write w.file 0 (updated_header (take 64 w.file) offset w.entries_written)
        ≡ new ++ rest =
      rw (same, updated_header-file_header freq start sec nsec offset w.entries_written, e)
        (file_write-start old new rest (
          length-file_header freq start sec nsec 0 0
          ∙ sym (length-file_header freq start sec nsec offset w.entries_written))) in
    elim (Bool-cases (next_call w)) [
      | inl good ↦
          rw (long, good)
            (
              after_call w,
              (
                next_call-Keeps w good,
                close_file-Closed (record w { calls = after_call w }) (old ++ rest) (new ++ rest)
                    (updated_header (take 64 w.file) offset w.entries_written) e stored,
              ),
            )
      | inr bad ↦ rw (long, bad) (next_call-Fails w bad)
    ]

-- A step that fails only where a system call of it does.
abbrev pub MayKeep : Writer → Status → Type 0
MayKeep w (failed w') = Fails w w'
MayKeep w (ok w') = Keeps w w'

pub Wrote-MayKeep : (w : Writer) (xs : List ℕ) (m : Status) → Wrote w xs m → MayKeep w m
Wrote-MayKeep w xs (failed u) h = h
Wrote-MayKeep w xs (ok u) (v, c, s, n, g) = g

pub >>=-Leaves :
    (w : Writer) (old new : List ℕ) (m : Status) (f : Writer → Status)
    → MayKeep w m
    → ((w' : Writer) → m ≡ ok w' → Leaves w' old new (f w'))
    → Leaves w old new (m >>= f)
>>=-Leaves w old new (failed u) f g h = g
>>=-Leaves w old new (ok u) f g h = then_ (f u) (h u refl)
  where
    then_ : (r : Status) → Leaves u old new r → Leaves w old new r
    then_ (failed z) q = Succeed-trans g q
    then_ (ok z) (cs, (q, c)) = (cs, (Succeed-trans g q, c))

settled_after :
    (w : Writer) (xs : List ℕ) (m : Status)
    → Wrote w xs m
    → Wrote w xs (m >>= binwriter_flush >>= wait_for_aio)
      × Flushed (m >>= binwriter_flush >>= wait_for_aio)
settled_after w xs (failed u) h = (h, tt)
settled_after w xs (ok u) h =
    let rest = flush_and_wait u h.0 in
    let both =
      >>=-Wrote w xs [] (ok u) (λ u'. binwriter_flush u' >>= wait_for_aio) h
        (λ u' e v'. (flush_and_wait u' v').0) in
    (rw (append-nil xs) at both, rest.1)

pub binwriter_close-Leaves :
    (w : Writer) (sites : List LogSite) (levels : List CustomLevel) (freq start sec nsec : ℕ)
    (entries : List ℕ)
    → IsValid w
    → 2 ^ 16 ≤ w.buffer_size
    → content w ≡ file_header freq start sec nsec 0 0 ++ entries
    → Leaves w
        (file_header freq start sec nsec 0 0 ++ (entries ++ dictionary_bytes sites levels))
        (file_header freq start sec nsec (64 + length entries) w.entries_written
          ++ (entries ++ dictionary_bytes sites levels))
        (binwriter_close w sites levels)
unfolding binwriter_close
binwriter_close-Leaves w sites levels freq start sec nsec entries v room e =
    let head = file_header freq start sec nsec 0 0 in
    let dict = dictionary_bytes sites levels in
    let first = flush_and_wait w v in
    >>=-Leaves w _ _ (binwriter_flush w >>= wait_for_aio)
      (λ w1. write_dictionary w1 sites levels >>= binwriter_flush >>= wait_for_aio >>= λ w2.
        update_header w2 w1.bytes_written)
      (Wrote-MayKeep w [] _ first.0)
      (λ w1 e1.
        let (v1, c1, s1, n1, g1) = rw e1 at first.0 in
        let (f1, b1) = rw e1 at first.1 in
        let file : w1.file ≡ head ++ entries = sym f1 ∙ c1 ∙ append-nil (content w) ∙ e in
        let offset : w1.bytes_written ≡ 64 + length entries =
          b1
          ∙ rw file (
              omega
                (arith, length-append head entries, length-file_header freq start sec nsec 0 0)) in
        let wrote = write_dictionary-Wrote sites levels w1 v1 (omega arith) in
        let last = settled_after w1 dict (write_dictionary w1 sites levels) wrote in
        >>=-Leaves w1 _ _ (write_dictionary w1 sites levels >>= binwriter_flush >>= wait_for_aio)
          (λ w2. update_header w2 w1.bytes_written) (Wrote-MayKeep w1 dict _ last.0)
          (λ w2 e2.
            let (v2, c2, s2, n2, g2) = rw e2 at last.0 in
            let (f2, b2) = rw e2 at last.1 in
            let whole : w2.file ≡ head ++ (entries ++ dict) =
              sym f2 ∙ c2 ∙ rw (f1, file) (append_assoc head entries dict) in
            rw (sym offset, sym n1, sym n2)
              (update_header-Leaves w2 freq start sec nsec w1.bytes_written (entries ++ dict)
                whole)))
