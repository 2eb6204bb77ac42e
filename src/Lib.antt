-- ===== src/Lib.antt =====
-- CNanoLog: a verification library for the binary logger and its decompressor.
--
-- The program. A log call packs its arguments into the calling thread's staging buffer; a background
-- thread reads the entries, compresses their arguments and hands them to the file writer, which
-- buffers them, writes asynchronously, and ends the file with dictionaries of the log sites and custom
-- levels. The decompressor reads the file, restores the arguments and prints a line for each entry. In
-- text mode the lines are formatted when they are written.
--
-- The parts, and the files that model them.
--   Format      include/cnanolog_format.h: argument type codes, limits, header sizes.
--   Packer      src/packer.c, src/packer.h: pack_* and unpack_*, set_nibble and get_nibble, under the
--               source's names. Packer/RoundTrip and Packer/Nibbles hold the proofs.
--   Registry    src/log_registry.c: log_site_t and log_registry_t as records, the operations as
--               functions of the registry. Registry/Active views the array as a list, Registry/Laws
--               states the invariant, Registry/Register and Registry/Unique what a registration does.
--   Levels      src/cnanolog.c: cnanolog_register_level and the table of custom levels.
--   Threads     src/cnanolog.c: get_or_create_staging_buffer and the registry of the buffers.
--   ArgPacking  src/arg_packing.h: arg_pack_write_fast over a list of variadic values.
--   Args        the arguments of a call and their layout in memory, which ArgPacking writes and
--               Compressor reads: the independent description that their theorems refer to.
--   Compressor  src/compressor.c: both passes of compress_entry_args. Compressor/Spec says what they
--               write, Compressor/Bound how long it is.
--   Decompress  tools/decompressor.c: decompress_entry_args. ReadInts and WriteArgs are its passes,
--               RoundTrip and Wide join it to the compressor.
--   Staging     src/staging_buffer.c: the ring buffer of one producer and one consumer. Memory has the
--               byte array, Bounds the invariant under all interleavings, Queue the buffer as a queue
--               of bytes before a wrap-around, Wrap the wrap-around.
--   Writer      src/binary_writer.c: the state and the buffered writes. Content is the abstract view
--               (the bytes written so far, wherever they are), Flush and Append the buffered writes,
--               Dictionary the dictionaries and binwriter_close, Pieces, Entry, Close and Session what
--               they append and leave, Rotate binwriter_rotate.
--   Producer    src/cnanolog.c, _cnanolog_log_binary: a log call on its thread's buffer, which joins
--               ArgPacking to Staging. Producer/Laws and Producer/Drops hold the proofs.
--   Consumer    src/cnanolog.c, writer_thread_main: a batch over one staging buffer in binary mode,
--               which joins Staging, Compressor and Writer. Rounds and Pending have what one round
--               does, Batches the end of the loop, Compressed and Drain what the batches write.
--   Shutdown    src/cnanolog.c, cnanolog_shutdown: the drain of a staging buffer.
--   TextFormatter  src/text_formatter.c: the writer of the text mode; Message formats the message of a
--               call, Pattern the line.
--   Reader      tools/decompressor.c: Dictionary reads the dictionaries, LoadLaws and LoadDictionary
--               join it to Writer/Pieces; Context has time stamps, Levels the level names and
--               filter, Message the message, Line the line, File the whole file.
--   Pipeline    what the decompressor prints of the entries that the background thread has written.
--   Outcome     a result, a returned error, or undefined behaviour.
--   Base, Tests shared helpers; the theorems at concrete inputs.
--
-- How code is modelled. A fixed-width integer is a natural number with its wrap-around written out; a
-- signed one is its two's complement bit pattern. A C string is the list of its bytes. An output
-- buffer is the list of the bytes written, a read pointer the list of the bytes from it on; where the
-- source tests an end pointer, positions are numbers. Loops are structural recursion over the argument
-- types, the sites or the bytes. Two run on fuel: batch_loop, for which two rounds for each entry of a
-- batch are enough, and the drain at shutdown, where two rounds are enough for what fits one read. The
-- staging buffer's size is a parameter (128 MB in the source), and so is the writer's buffer size (64
-- MB); the theorems ask for at most 2^62 bytes of the former, so that no size_t sum wraps, and at
-- least 2^16 of the latter, the longest piece that is written at once. The byte counts of a file stay
-- below 2^64 and are not wrapped.
--
-- What is assumed of code outside the repository. The outcomes of allocations and of system calls are
-- arguments: a Boolean for realloc and malloc, a list of outcomes in the writer's state. The calls
-- beyond the list succeed. A write that succeeds writes all its bytes, and an asynchronous write takes
-- them from its buffer when it is waited for. What fflush could not store, fclose tries to store
-- again. The formatting of one value by snprintf and of a time by strftime are functions in a record
-- that the readers take as a parameter. What a local buffer holds behind the bytes that are read into
-- it is a parameter. An operation under a mutex and an access to an atomic are single steps; the
-- interleavings of threads are sequences of these, and the producer takes no step during the batches
-- that are run. NULL checks of pointers that always exist are left out. The build is the one with
-- timestamps, on Linux. Log sites have at most 50 arguments, the limit CNANOLOG_MAX_ARGS.
--
-- What is not modelled: of src/cnanolog.c the start, the scan over the registered buffers, the timed
-- flush, the daily rotation's file names, the text mode of the background thread and the statistics;
-- the decompressor's command line; time sources, platform wrappers and tools that only print.
pub mod Base
pub mod Packer
pub mod Format
pub mod Outcome
pub mod Args
pub mod Registry
pub mod Compressor
pub mod Decompress
pub mod ArgPacking
pub mod Staging
pub mod Producer
pub mod Writer
pub mod Levels
pub mod TextFormatter
pub mod Consumer
pub mod Shutdown
pub mod Reader
pub mod Pipeline
pub mod Threads
pub mod Tests
