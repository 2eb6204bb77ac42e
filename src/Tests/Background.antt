-- ===== src/Tests/Background.antt =====
-- The background thread on concrete buffers.
use cnano_log.Base.{ℕ, ◌≡◌, refl, [], ◌∷◌, ◌++◌, some, arith, length, length-replicate, replicate}
use cnano_log.Base.Bytes.{le_bytes, le_value}
use cnano_log.Outcome.{Outcome, done}
use cnano_log.Format.{ArgType}
use cnano_log.Args
use cnano_log.Args.{Arg, scalar, text, kind_type, width}
use cnano_log.Registry.{LogRegistry, LogSite, zero_site, log_registry_get}
use cnano_log.Packer.{nibble_bytes, set_nibble, num_bytes_of, sign_extend}
use cnano_log.Packer.RoundTrip.{magnitude}
use cnano_log.Packer.Nibbles.{set_nibbles}
use cnano_log.Compressor.{sign_nibble}
use cnano_log.Compressor.Spec.{compressed, nibble_array, nibble_of, packed_size, packed_value}
use cnano_log.Writer.{entry_header, new_writer}
use cnano_log.Writer.Session.{entry_bytes}
use cnano_log.Staging.{StagingBuffer, staging_available, staging_read, staging_wrap_read_pos}
use cnano_log.Staging.Memory.{slice}
use cnano_log.Staging.Queue.{IsLinear, pending}
use cnano_log.Consumer.{header_log_id, Batch, batch_loop, Output, write_binary, write_plain}
use cnano_log.Consumer.Rounds.{IsStored}
use cnano_log.Consumer.Compressed.{Staged, staged_entry, packed_entry, IsStaged, write_each}
use cnano_log.Consumer.Batches.{StartsPlain, batch_loop-ends}
use cnano_log.Shutdown.{drain}
use cnano_log.Shutdown.Loss.{drain-loses}
use cnano_log.Consumer.Drain.{batches, batches-staged}

abbrev site : LogSite
site = record zero_site { num_args = 1; arg_types = ArgType.int32 ∷ replicate 49 ArgType.arg_none }

abbrev registry : LogRegistry
registry = record { sites = site ∷ []; count = 1; capacity = 1 }

abbrev pub staged : Staged
staged = record { log_id = 0; timestamp = 130; args = scalar Args.int32 5 ∷ [] }

-- One entry waits at the buffer's start.
abbrev pub waiting : StagingBuffer
waiting = record {
  write_pos = 18;
  committed = 18;
  read_pos = 0;
  thread_id = 7;
  active = 1;
  mem = entry_bytes (staged_entry staged) ++ replicate 238 0;
}

pub waiting-IsLinear : IsLinear 256 waiting
unfolding entry_header le_bytes width
waiting-IsLinear = omega (arith, length-replicate {A = ℕ} 238 0)

waiting-StartsPlain : StartsPlain 256 waiting
unfolding header_log_id staging_read staging_available staging_wrap_read_pos slice entry_header
    le_bytes le_value width
waiting-StartsPlain e = omega arith

abbrev output : Output
output = record {
  binary_writer = new_writer 65536 [];
  bytes_compressed_from = 0;
  bytes_compressed_to = 0;
}

batch_loop-ends_example :
    (o : Outcome (Batch Output)) × (batch_loop 256
        (write_binary registry)
        2000
        1000
        (record { writer = output; sb = waiting; batch_count = 0 })
      ≡ some o)
batch_loop-ends_example =
    batch_loop-ends 256 (write_binary registry) 2000 1000
      (record { writer = output; sb = waiting; batch_count = 0 }) waiting-StartsPlain (omega arith)

pub length-data : length (compressed staged.args) ≡ 2
unfolding compressed nibble_array nibble_of packed_size packed_value sign_nibble num_bytes_of
    magnitude sign_extend set_nibbles set_nibble nibble_bytes le_bytes
length-data = refl

pub staged-IsStored : IsStored (staged_entry staged)
unfolding le_bytes width
staged-IsStored = record {
  id_fits = omega arith;
  id_real = λ e. omega arith;
  timestamp_fits = omega arith;
  size_fits = omega arith;
}

staged-IsStaged : IsStaged registry staged
unfolding log_registry_get kind_type width
staged-IsStaged = record {
  site = site;
  registered = refl;
  typed = refl;
  numbered = refl;
  args_valid = (omega arith, tt);
  fits = omega (arith, length-data);
}

pub waiting_bytes : pending waiting ≡ (entry_bytes (staged_entry staged) ++ []) ++ []
unfolding slice entry_header le_bytes width
waiting_bytes = refl

batches-staged_example :
    (o' : Output) × ((sb' : StagingBuffer) × ((batches 256
            (write_binary registry)
            1000
            1
            output
            waiting
          ≡ some (done (o', sb')))
        × ((o'.binary_writer ≡ write_each (packed_entry staged ∷ []) (new_writer 65536 []))
            × (pending sb' ≡ []))))
batches-staged_example =
    batches-staged 256 registry 1 (staged ∷ []) output waiting [] waiting-IsLinear
      (staged-IsStored, tt) (staged-IsStaged, tt) waiting_bytes (omega arith) (omega arith)

abbrev later : Staged
later = record { log_id = 0; timestamp = 131; args = scalar Args.int32 6 ∷ [] }

-- Two entries wait at shutdown.
abbrev two_waiting : StagingBuffer
two_waiting = record {
  write_pos = 36;
  committed = 36;
  read_pos = 0;
  thread_id = 7;
  active = 1;
  mem = entry_bytes (staged_entry staged) ++ (entry_bytes (staged_entry later) ++ replicate 220 0);
}

two_waiting-IsLinear : IsLinear 256 two_waiting
unfolding entry_header le_bytes width
two_waiting-IsLinear = omega (arith, length-replicate {A = ℕ} 220 0)

two_waiting_bytes :
    pending two_waiting ≡ entry_bytes (staged_entry staged) ++ entry_bytes (staged_entry later)
unfolding slice entry_header le_bytes width
two_waiting_bytes = refl

length-both : length (entry_bytes (staged_entry staged) ++ entry_bytes (staged_entry later)) ≡ 36
unfolding entry_header le_bytes width
length-both = refl

drain-loses_example :
    (sb' : StagingBuffer) × ((drain 256 []
          (λ log_id timestamp args o. done (write_plain log_id timestamp args o))
          2
          output
          two_waiting
        ≡ some (done (write_plain 0 130 ((staged_entry staged).arg_data) output, sb')))
      × (pending sb' ≡ []))
drain-loses_example =
    drain-loses 256 [] (λ log_id timestamp args o. done (write_plain log_id timestamp args o)) 2
      output (staged_entry staged) (entry_bytes (staged_entry later)) two_waiting
      two_waiting-IsLinear staged-IsStored two_waiting_bytes (omega (arith, length-both))
      (omega arith)
