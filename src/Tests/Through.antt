-- ===== src/Tests/Through.antt =====
-- A call from its staging buffer to the printed line.
use cnano_log.Base.{◌≡◌, refl, [], ◌∷◌, none, some, true, arith}
use cnano_log.Outcome.{done}
use cnano_log.Args.{kind_type, width}
use cnano_log.Registry.{LogRegistry, log_registry_get}
use cnano_log.Writer.{
  Writer, ok, new_writer, binwriter_write_header, write_fd, next_call, after_call,
}
use cnano_log.Writer.Dictionary.{binwriter_close}
use cnano_log.Staging.{StagingBuffer}
use cnano_log.Consumer.{Output, writer_after, write_binary}
use cnano_log.Consumer.Compressed.{IsStaged}
use cnano_log.Consumer.Drain.{batches}
use cnano_log.Reader.Line.Fields.{output_format}
use cnano_log.Reader.File.{decompress_file}
use cnano_log.Reader.File.Logged.{logged_lines}
use cnano_log.Pipeline.{staged_call, decompress_file-batches}
use cnano_log.Tests.Reading.{
  libc, site, level, clock, call, fields, context, site-IsSite, level-IsLevel, fields-IsField,
  call-IsLogged, dict_offset_lem,
}
use cnano_log.Tests.Background.{
  waiting, waiting-IsLinear, staged-IsStored, waiting_bytes, length-data,
}

abbrev registry : LogRegistry
registry = record { sites = site ∷ []; count = 1; capacity = 1 }

-- The writer behind the file's header.
abbrev output : Output
output = record {
  binary_writer = writer_after (binwriter_write_header (new_writer 65536 []) 10 100 7 0);
  bytes_compressed_from = 0;
  bytes_compressed_to = 0;
}

output_lem : binwriter_write_header (new_writer 65536 []) 10 100 7 0 ≡ ok output.binary_writer
unfolding new_writer binwriter_write_header write_fd next_call after_call
output_lem = refl

call-IsStaged : IsStaged registry (staged_call call)
unfolding log_registry_get kind_type width
call-IsStaged = record {
  site = site;
  registered = refl;
  typed = refl;
  numbered = refl;
  args_valid = (omega arith, tt);
  fits = omega (arith, length-data);
}

decompress_file-batches_example :
    (o' : Output) × ((sb' : StagingBuffer) × ((w : Writer) × ((batches 256
              (write_binary registry)
              1000
              1
              output
              waiting
            ≡ some (done (o', sb')))
          × ((binwriter_close o'.binary_writer (site ∷ []) (level ∷ []) ≡ ok w)
              × (decompress_file libc
                    (λ k. true)
                    (λ k. [])
                    (λ k. [])
                    w.file
                    (output_format fields)
                    none
                  ≡ done (logged_lines libc context fields [] (call ∷ []), true))))))
decompress_file-batches_example =
    decompress_file-batches libc (λ k. true) (λ k. refl) (λ k. []) (λ k. []) 256 registry 1
      (call ∷ []) output waiting [] 65536 clock (site ∷ []) (level ∷ []) fields none
      waiting-IsLinear (staged-IsStored, tt) (call-IsStaged, tt) waiting_bytes (omega arith)
      (omega arith) output_lem (omega arith)
      (record {
        freq_fits = omega arith;
        start_fits = omega arith;
        sec_fits = omega arith;
        nsec_fits = omega arith;
        offset_fits = omega (arith, dict_offset_lem);
        count_fits = omega arith;
      })
      (site-IsSite, tt) (level-IsLevel, tt) (omega arith) (omega arith)
      (omega (arith, dict_offset_lem)) fields-IsField (call-IsLogged, tt)
