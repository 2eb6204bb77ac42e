-- ===== src/Consumer/Drain.antt =====
-- src/cnanolog.c: batches of the background thread, one after the other, take all that is pending.
use cnano_log.Base.{
  ℕ, zero, suc, ◌+◌, ◌*◌, ◌<◌, ◌≤◌, ◌≡◌, ◌⊎◌, inl, inr, refl, sym, ap, ◌∙◌, List, [], ◌∷◌, ◌++◌,
  append_assoc, Option, none, some, length, length-take, length-drop, take, drop, take-append-drop,
  All, All-prefix, dec_lt, arith, map,
}
use cnano_log.Outcome.{Outcome, done, rejected, fault, ◌>>=◌}
use cnano_log.Format.{entry_header_size}
use cnano_log.Registry.{LogRegistry}
use cnano_log.Writer.Session.{Entry, entry_bytes, entries_bytes}
use cnano_log.Staging.{StagingBuffer, staging_consume}
use cnano_log.Staging.Queue.{IsLinear, pending}
use cnano_log.Consumer.{Batch, batch_loop, batch_process_size, Output, write_binary}
use cnano_log.Consumer.Rounds.{IsStored}
use cnano_log.Consumer.Pending.{write_all, consume_all, consume_all-pending, batch_loop-stored}
use cnano_log.Consumer.Compressed.{
  Staged, staged_entry, packed_entry, IsStaged, write_each, write_all-staged,
}

entries_bytes-append :
    (xs ys : List Entry) → entries_bytes (xs ++ ys) ≡ entries_bytes xs ++ entries_bytes ys
entries_bytes-append [] ys = refl
entries_bytes-append (x ∷ xs) ys =
    rw (entries_bytes-append xs ys)
      (sym (append_assoc (entry_bytes x) (entries_bytes xs) (entries_bytes ys)))

All-suffix {ℓ κ} : {A : Type ℓ} (P : A → Type κ) (xs ys : List A) → All P (xs ++ ys) → All P ys
All-suffix P [] ys h = h
All-suffix P (x ∷ xs) ys h = All-suffix P xs ys h.1

drop-short {ℓ} : {A : Type ℓ} (n : ℕ) (xs : List A) → length xs ≤ n → drop n xs ≡ []
drop-short zero [] h = refl
drop-short zero (x ∷ xs) h = absurd (omega arith)
drop-short (suc n) [] h = refl
drop-short (suc n) (x ∷ xs) h = drop-short n xs (omega arith)

bind_assoc {ℓ} :
    {A B C : Type ℓ} (o : Outcome A) (f : A → Outcome B) (g : B → Outcome C)
    → (o >>= f >>= g) ≡ (o >>= λ a. f a >>= g)
bind_assoc (done a) f g = refl
bind_assoc rejected f g = refl
bind_assoc fault f g = refl

write_all-append :
    {W : Type 0} (write_entry : ℕ → ℕ → List ℕ → W → Outcome W) (xs ys : List Entry) (w : W)
    → write_all write_entry (xs ++ ys) w ≡ (write_all write_entry xs w >>= write_all write_entry ys)
unfolding write_all
write_all-append write_entry [] ys w = refl
write_all-append write_entry (x ∷ xs) ys w =
    (λ i. write_entry x.log_id x.timestamp x.arg_data w >>= λ w'.
    write_all-append write_entry xs ys w' i)
    ∙ sym (
        bind_assoc (write_entry x.log_id x.timestamp x.arg_data w) (write_all write_entry xs)
          (write_all write_entry ys))

consume_all-append :
    (size : ℕ) (xs ys : List Entry) (sb : StagingBuffer)
    → consume_all size (xs ++ ys) sb ≡ consume_all size ys (consume_all size xs sb)
unfolding consume_all
consume_all-append size [] ys sb = refl
consume_all-append size (x ∷ xs) ys sb =
    consume_all-append size xs ys (staging_consume size sb (entry_header_size + length x.arg_data))

module _ {W : Type 0} (size : ℕ) (write_entry : ℕ → ℕ → List ℕ → W → Outcome W) (room : ℕ) where
  -- Batches of `room` entries, with the fuel that they need.
  abbrev pub next_batch : W → StagingBuffer → Option (Outcome (Batch W))
  next_batch w sb =
      batch_loop size write_entry (2 * room + 1) room
        (record { writer = w; sb = sb; batch_count = 0 })

  abbrev pub then_batches :
      (W → StagingBuffer → Option (Outcome (W × StagingBuffer)))
      → Option (Outcome (Batch W))
      → Option (Outcome (W × StagingBuffer))
  then_batches f none = none
  then_batches f (some fault) = some fault
  then_batches f (some rejected) = some rejected
  then_batches f (some (done b)) = f b.writer b.sb

  unfoldable pub batches : ℕ → W → StagingBuffer → Option (Outcome (W × StagingBuffer))
  batches zero w sb = some (done (w, sb))
  batches (suc n) w sb = then_batches (batches n) (next_batch w sb)

  then_done :
      (f : W → StagingBuffer → Option (Outcome (W × StagingBuffer))) (o : Outcome W)
      (sb left : StagingBuffer) (count : ℕ) (g : W → Outcome W)
      → ((w : W) → f w sb ≡ some (g w >>= λ v. done (v, left)))
      → then_batches f
          (some (o >>= λ w. done (record { writer = w; sb = sb; batch_count = count })))
        ≡ some (o >>= g >>= λ v. done (v, left))
  then_done f (done w) sb left count g h = h w
  then_done f rejected sb left count g h = refl
  then_done f fault sb left count g h = refl

  -- Every pending entry is handed on, in order, after as many batches as take them all.
  pub batches-stored :
      (n : ℕ) (es : List Entry) (w : W) {sb : StagingBuffer} (rest : List ℕ)
      → IsLinear size sb
      → All IsStored es
      → pending sb ≡ entries_bytes es ++ rest
      → length rest < entry_header_size
      → length es ≤ n * room
      → batches n w sb ≡ some (write_all write_entry es w >>= λ v. done (v, consume_all size es sb))
  unfolding batches write_all consume_all
  batches-stored zero [] w rest lin h e short fits = refl
  batches-stored zero (x ∷ es) w rest lin h e short fits = absurd (omega arith)
  batches-stored (suc n) es w {sb} rest lin h e short fits =
      let xs = take room es in
      let ys = drop room es in
      let whole : xs ++ ys ≡ es = take-append-drop room es in
      let last : (length xs ≡ room) ⊎ (length (entries_bytes ys ++ rest) < entry_header_size) =
        elim (dec_lt (length es) room) [
          | yes few ↦ inr (let none_left = drop-short room es (omega arith) in rw none_left short)
          | no many ↦ inl (omega (arith, length-take room es))
        ] in
      let hx : All IsStored xs = All-prefix IsStored xs ys (rw (sym whole) at h) in
      let hy : All IsStored ys = All-suffix IsStored xs ys (rw (sym whole) at h) in
      let next : pending sb ≡ entries_bytes xs ++ (entries_bytes ys ++ rest) =
        e
        ∙ ap (λ zs. entries_bytes zs ++ rest) (sym whole)
        ∙ ap (λ bs. bs ++ rest) (entries_bytes-append xs ys)
        ∙ append_assoc (entries_bytes xs) (entries_bytes ys) rest in
      let (p, lin') = consume_all-pending size xs (entries_bytes ys ++ rest) lin hx next in
      let handed : write_all write_entry es w
          ≡ (write_all write_entry xs w >>= write_all write_entry ys) =
        sym (ap (λ zs. write_all write_entry zs w) whole) ∙ write_all-append write_entry xs ys w in
      let left : consume_all size es sb ≡ consume_all size ys (consume_all size xs sb) =
        sym (ap (λ zs. consume_all size zs sb) whole) ∙ consume_all-append size xs ys sb in
      let first =
        batch_loop-stored size write_entry (2 * room + 1) room xs w 0 (entries_bytes ys ++ rest) lin
          hx next last (omega (arith, length-take room es)) (omega (arith, length-take room es)) in
      rw (first, handed, left)
        (then_done (batches n) (write_all write_entry xs w) (consume_all size xs sb) _ _ _
          (λ w'. batches-stored n ys w' rest lin' hy p short (omega (arith, length-drop room es))))

length-map {ℓ κ} :
    {A : Type ℓ} {B : Type κ} (f : A → B) (xs : List A) → length (map f xs) ≡ length xs
length-map f [] = refl
length-map f (x ∷ xs) = ap suc (length-map f xs)

-- In binary mode the entries that wait in a staging buffer are all written to the file's writer, in
-- order, each with its argument data compressed, after one batch for each thousand of them; only
-- what is behind them is then pending. The buffer has not wrapped around, the entries fit the
-- thread's buffers, their sites are registered with the types of the values, and less than a header
-- is behind them.
pub batches-staged :
    (size : ℕ) (registry : LogRegistry) (n : ℕ) (cs : List Staged) (o : Output) (sb : StagingBuffer)
    (rest : List ℕ)
    → IsLinear size sb
    → All IsStored (map staged_entry cs)
    → All (IsStaged registry) cs
    → pending sb ≡ entries_bytes (map staged_entry cs) ++ rest
    → length rest < entry_header_size
    → length cs ≤ n * batch_process_size
    → (o' : Output) × ((sb' : StagingBuffer) × ((batches size
              (write_binary registry)
              batch_process_size
              n
              o
              sb
            ≡ some (done (o', sb')))
          × ((o'.binary_writer ≡ write_each (map packed_entry cs) o.binary_writer)
              × (pending sb' ≡ rest))))
batches-staged size registry n cs o sb rest lin stored staged e short fits =
    let es = map staged_entry cs in
    let ran =
      batches-stored size (write_binary registry) batch_process_size n es o rest lin stored e short
        (omega (arith, length-map staged_entry cs, fits)) in
    let (o', (made, writer)) = write_all-staged registry cs o staged in
    let (left, lin') = consume_all-pending size es rest lin stored e in
    (o', (consume_all size es sb, (ran ∙ rw made refl, (writer, left))))
