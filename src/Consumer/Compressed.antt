-- ===== src/Consumer/Compressed.antt =====
-- src/cnanolog.c: entries that a batch of the background thread compresses and writes.
use cnano_log.Base.{
  ℕ, ◌+◌, ◌^◌, ◌%◌, ◌≤◌, ◌≡◌, refl, ap, ◌∙◌, List, [], ◌∷◌, append-nil, some, true, ltb, lt→ltb,
  le→ltb_false, length, map, All, arith,
}
use cnano_log.Outcome.{done}
use cnano_log.Args.{Arg, encode_args, IsArg, types}
use cnano_log.Registry
use cnano_log.Registry.{LogRegistry, LogSite, log_registry_get}
use cnano_log.Compressor.{compress_entry_args}
use cnano_log.Compressor.Spec.{compressed, nibble_array, compress_entry_args_lem}
use cnano_log.Packer.{nibble_bytes}
use cnano_log.Packer.Nibbles.{set_nibbles}
use cnano_log.Producer.{max_log_entry_size}
use cnano_log.Writer
use cnano_log.Writer.{Writer, Status, ok, failed, binwriter_write_entry}
use cnano_log.Writer.Session.{Entry, write_entry, write_entries}
use cnano_log.Consumer.{Output, writer_after, write_compressed, write_plain, write_binary}
use cnano_log.Consumer.Pending.{write_all}

-- An entry of a staging buffer: the log id, the time stamp and the values of a call.
pub record Staged : Type 0 where
  pub log_id : ℕ
  pub timestamp : ℕ
  pub args : List Arg

-- As the producer stores it, and as the file is to hold it.
abbrev pub staged_entry : Staged → Entry
staged_entry c = record {
  log_id = c.log_id;
  timestamp = c.timestamp;
  arg_data = encode_args c.args;
}

abbrev pub packed_entry : Staged → Entry
packed_entry c = record { log_id = c.log_id; timestamp = c.timestamp; arg_data = compressed c.args }

-- The site is registered, with the types of the values, and the compressed data fit their buffer.
pub record IsStaged (registry : LogRegistry) (c : Staged) : Type 0 where
  pub site : LogSite
  pub registered : log_registry_get registry c.log_id ≡ some site
  pub typed : Registry.used_types site ≡ types c.args
  pub numbered : site.num_args ≡ length c.args
  pub args_valid : All IsArg c.args
  pub fits : length (compressed c.args) ≤ max_log_entry_size

-- The writer after writing entries, whether or not a call of the system fails.
unfoldable pub write_each : List Entry → Writer → Writer
write_each [] w = w
write_each (e ∷ es) w = write_each es (writer_after (write_entry w e))

-- When none fails it is the writer that `write_entries` returns.
pub write_each-write_entries :
    (es : List Entry) (w w' : Writer) → write_entries w es ≡ ok w' → write_each es w ≡ w'
unfolding write_each write_entries
write_each-write_entries [] w w' h = ap writer_after h
write_each-write_entries (e ∷ es) w w' h =
    after_status (write_entry w e) (λ u. write_each-write_entries es u w') h
  where
    after_status :
        (m : Status)
        → ((u : Writer) → write_entries u es ≡ ok w' → write_each es u ≡ w')
        → (Writer.◌>>=◌ m (λ u. write_entries u es)) ≡ ok w'
        → write_each es (writer_after m) ≡ w'
    after_status (ok u) later q = later u q
    after_status (failed u) later q = cc

module _ (registry : LogRegistry) where
  write_binary-staged :
      (log_id timestamp : ℕ) (args : List Arg) (o : Output)
      → IsStaged registry (record { log_id = log_id; timestamp = timestamp; args = args })
      → (o' : Output) × ((write_binary registry log_id timestamp (encode_args args) o ≡ done o')
          × (o'.binary_writer
              ≡ writer_after (
                  binwriter_write_entry o.binary_writer log_id timestamp
                    (compressed args)
                    (length (compressed args)))))
  unfolding write_binary write_compressed write_plain compressed nibble_array set_nibbles
      nibble_bytes
  write_binary-staged log_id timestamp [] o v =
      (write_plain log_id timestamp [] o, (rw (v.registered, write_binary, v.numbered) refl, refl))
  write_binary-staged log_id timestamp (a ∷ args) o v =
      let all = a ∷ args in
      let c = compressed all in
      let made : compress_entry_args (encode_args all) v.site ≡ some c =
        rw (append-nil (encode_args all)) at
          (compress_entry_args_lem v.site all [] v.typed v.args_valid) in
      let some_args : ltb 0 (v.site).num_args ≡ true =
        lt→ltb 0 (v.site).num_args (omega (arith, v.numbered)) in
      let small : length c % 2 ^ 16 ≡ length c = omega (arith, v.fits) in
      let o' : Output = record {
        binary_writer =
            writer_after (binwriter_write_entry o.binary_writer log_id timestamp c (length c));
        bytes_compressed_from = (o.bytes_compressed_from + length (encode_args all)) % 2 ^ 64;
        bytes_compressed_to = (o.bytes_compressed_to + length c) % 2 ^ 64;
      } in
      (
        o',
        (
          rw
              (
                v.registered,
                write_binary,
                some_args,
                made,
                le→ltb_false max_log_entry_size (length c) v.fits,
                small,
              )
              refl,
          refl,
        ),
      )

  -- A batch of calls with registered sites is written, each as its compressed entry, in order.
  pub write_all-staged :
      (cs : List Staged) (o : Output)
      → All (IsStaged registry) cs
      → (o' : Output) × ((write_all (write_binary registry) (map staged_entry cs) o ≡ done o')
          × (o'.binary_writer ≡ write_each (map packed_entry cs) o.binary_writer))
  unfolding write_all write_each
  write_all-staged [] o h = (o, (refl, refl))
  write_all-staged (c ∷ cs) o h =
      let (o1, (e1, w1)) = write_binary-staged c.log_id c.timestamp c.args o h.0 in
      let (o2, (e2, w2)) = write_all-staged cs o1 h.1 in (o2, (rw (e1, e2) refl, w2 ∙ rw w1 refl))
