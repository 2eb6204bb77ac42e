-- ===== src/Pipeline.antt =====
-- The path of a call behind its staging buffer: src/cnanolog.c and src/binary_writer.c write the
-- entries, and tools/decompressor.c prints them.
use cnano_log.Base.{
  ℕ, ◌*◌, ◌^◌, ◌<◌, ◌≤◌, ◌≡◌, refl, sym, ap, ◌∙◌, List, [], ◌∷◌, ◌++◌, Option, some, Bool, true,
  length, map, All,
}
use cnano_log.Outcome.{done}
use cnano_log.Format.{entry_header_size}
use cnano_log.Registry.{LogRegistry, LogSite}
use cnano_log.Writer
use cnano_log.Writer.{Writer, Status, ok, failed, new_writer, binwriter_write_header}
use cnano_log.Writer.Dictionary.{CustomLevel, binwriter_close}
use cnano_log.Writer.Session.{entries_bytes, write_entries, session}
use cnano_log.Staging.{StagingBuffer}
use cnano_log.Staging.Queue.{IsLinear, pending}
use cnano_log.Consumer.{Output, writer_after, batch_process_size, write_binary}
use cnano_log.Consumer.Rounds.{IsStored}
use cnano_log.Consumer.Compressed.{
  Staged, staged_entry, packed_entry, IsStaged, write_each-write_entries,
}
use cnano_log.Consumer.Drain.{batches, batches-staged}
use cnano_log.Reader.LoadLaws.{IsSite, IsLevel, loaded_level}
use cnano_log.Reader.Context.{Libc}
use cnano_log.Reader.Line.Fields.{Field, IsField, output_format}
use cnano_log.Reader.File.{decompress_file, filters_of}
use cnano_log.Reader.File.Header.{HeaderFits}
use cnano_log.Reader.File.Logged.{Logged, logged_entry, logged_lines, IsLogged}
use cnano_log.Reader.File.Session.{Clock, dict_offset, session_context, decompress_file-session}

-- What waits in a staging buffer for a call.
abbrev pub staged_call : Logged → Staged
staged_call c = record { log_id = (c.site).log_id; timestamp = c.timestamp; args = c.args }

map-map {ℓ κ μ} :
    {A : Type ℓ} {B : Type κ} {C : Type μ} (f : B → C) (g : A → B) (xs : List A)
    → map f (map g xs) ≡ map (λ x. f (g x)) xs
map-map f g [] = refl
map-map f g (x ∷ xs) = ap (λ ys. f (g x) ∷ ys) (map-map f g xs)

-- The steps of a session that succeeded.
session_steps :
    (m : Status) (f : Writer → Status) (w : Writer)
    → Writer.◌>>=◌ m f ≡ ok w
    → (u : Writer) × ((m ≡ ok u) × (f u ≡ ok w))
session_steps (ok u) f w h = (u, (refl, h))
session_steps (failed u) f w h = absurd cc

-- Calls whose entries wait in a staging buffer reach the printed log. The background thread's batches
-- write them all to a file whose header is written, the file is closed, and the decompressor then
-- succeeds on it and prints one line for each call whose level passes the filter, in order, with
-- the call's own message. No system call fails; the buffer has not wrapped around and holds these
-- entries, and there are as many batches as take them; the sites are registered, in memory and in
-- the file's dictionary; the values are of the sites' types and each 64-bit integer has a magnitude
-- below 2^56; messages and lines have room; and all numbers fit their fields.
pub decompress_file-batches :
    (libc : Libc) (alloc_ok : ℕ → Bool) (granted : (k : ℕ) → alloc_ok k ≡ true)
    (stale_args stale_values : ℕ → List ℕ) (buffer_size : ℕ) (registry : LogRegistry) (n : ℕ)
    (cs : List Logged) (o : Output) (sb : StagingBuffer) (rest : List ℕ) (size : ℕ) (t : Clock)
    (sites : List LogSite) (levels : List CustomLevel) (fields : List Field)
    (level_filter : Option (List ℕ))
    → IsLinear buffer_size sb
    → All IsStored (map staged_entry (map staged_call cs))
    → All (IsStaged registry) (map staged_call cs)
    → pending sb ≡ entries_bytes (map staged_entry (map staged_call cs)) ++ rest
    → length rest < entry_header_size
    → length (map staged_call cs) ≤ n * batch_process_size
    → binwriter_write_header (new_writer size []) t.freq t.start t.sec t.nsec ≡ ok o.binary_writer
    → 2 ^ 16 ≤ size
    → HeaderFits t.freq t.start t.sec t.nsec (dict_offset cs) (length cs)
    → All IsSite sites
    → All IsLevel levels
    → length sites < 2 ^ 32
    → length levels < 2 ^ 32
    → dict_offset cs < 2 ^ 63
    → All IsField fields
    → All (IsLogged libc (session_context t cs sites levels) fields sites) cs
    → (o' : Output) × ((sb' : StagingBuffer) × ((w : Writer) × ((batches buffer_size
                (write_binary registry)
                batch_process_size
                n
                o
                sb
              ≡ some (done (o', sb')))
            × ((binwriter_close o'.binary_writer sites levels ≡ ok w)
                × (decompress_file libc alloc_ok stale_args stale_values w.file
                      (output_format fields)
                      level_filter
                    ≡ done (
                      logged_lines libc
                          (session_context t cs sites levels)
                          fields
                          (filters_of (map loaded_level levels) level_filter)
                          cs,
                      true,
                    ))))))
unfolding session
decompress_file-batches libc alloc_ok granted sa sv buffer_size registry n cs o sb rest size t sites
      levels fields level_filter lin stored staged waits short fits header room hh hs hl few_sites
      few_levels low hf logged =
    let (o', (sb', (ran, (writer, left)))) =
      batches-staged buffer_size registry n (map staged_call cs) o sb rest lin stored staged waits
        short fits in
    let (w, (run, printed)) =
      decompress_file-session libc alloc_ok granted sa sv size t cs sites levels fields level_filter
        room hh hs hl few_sites few_levels low hf logged in
    let same : map packed_entry (map staged_call cs) ≡ map logged_entry cs =
      map-map packed_entry staged_call cs in
    let (w1, (opened, more)) =
      session_steps (binwriter_write_header (new_writer size []) t.freq t.start t.sec t.nsec) _ w
        run in
    let (w2, (written, closed)) = session_steps (write_entries w1 (map logged_entry cs)) _ w more in
    let first : w1 ≡ o.binary_writer = ap writer_after (sym opened ∙ header) in
    let there : o'.binary_writer ≡ w2 =
      writer
      ∙ rw same (rw (sym first) (write_each-write_entries (map logged_entry cs) w1 w2 written)) in
    (o', (sb', (w, (ran, (rw there closed, printed)))))
