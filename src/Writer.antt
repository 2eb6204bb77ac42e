-- ===== src/Writer.antt =====
-- src/binary_writer.c: the buffered file writer, on Linux with POSIX AIO.
-- The operating system is in the state: the file's bytes, the descriptor's own offset (which
-- `write` moves and `aio_write` does not), the asynchronous write that is under way, and the
-- outcomes of the calls still to come. A write that succeeds is taken to write all its bytes.
pub mod Content
pub mod Flush
pub mod Append
pub mod Dictionary
pub mod Pieces
pub mod Entry
pub mod Session
pub mod Close
pub mod Rotate
use cnano_log.Base.{
  ℕ, zero, suc, ◌+◌, ◌-◌, ◌*◌, ◌^◌, ◌%◌, List, [], ◌∷◌, ◌++◌, Option, some, none, Bool, true, false,
  if◌then◌else◌, ltb, ◌==◌, take, length,
}
use cnano_log.Base.Bytes.{le_bytes}
use cnano_log.Format.{entry_header_size}

-- The bytes of `aiocb`: a buffer, how many bytes of it, and where they go.
pub record Aio : Type 0 where
  pub aio_buf : ℕ
  pub aio_nbytes : ℕ
  pub aio_offset : ℕ

-- `struct binary_writer`. `outstanding` is `aiocb` while `has_outstanding_aio` is set.
pub record Writer : Type 0 where
  pub buffer_a : List ℕ
  pub buffer_b : List ℕ
  pub active_buffer_idx : ℕ
  pub buffer_used : ℕ
  pub buffer_size : ℕ
  pub outstanding : Option Aio
  pub entries_written : ℕ
  pub bytes_written : ℕ
  pub file : List ℕ
  pub fd_offset : ℕ
  pub calls : List Bool

-- The return values 0 and -1, with the writer as it then is.
pub data Status : Type 0 where
  ok : Writer → Status
  failed : Writer → Status

infixl 5 ◌>>=◌
abbrev pub ◌>>=◌ : Status → (Writer → Status) → Status
ok w >>= f = f w
failed w >>= f = failed w

-- Whether the next system call succeeds; calls beyond the list do.
unfoldable pub next_call : Writer → Bool
next_call w = elim w.calls [ [] ↦ true | c ∷ cs ↦ c ]

unfoldable pub after_call : Writer → List Bool
after_call w = elim w.calls [ [] ↦ [] | c ∷ cs ↦ cs ]

-- A store into a file, which grows if need be.
unfoldable pub file_write : List ℕ → ℕ → List ℕ → List ℕ
file_write [] zero bs = bs
file_write [] (suc p) bs = 0 ∷ file_write [] p bs
file_write (x ∷ f) zero [] = x ∷ f
file_write (x ∷ f) zero (b ∷ bs) = b ∷ file_write f zero bs
file_write (x ∷ f) (suc p) bs = x ∷ file_write f p bs

abbrev pub buffer : Writer → ℕ → List ℕ
buffer w idx = if idx == 0 then w.buffer_a else w.buffer_b

-- The bytes that an asynchronous write takes from its buffer, when it takes them.
abbrev pub aio_bytes : Writer → Aio → List ℕ
aio_bytes w a = take a.aio_nbytes (buffer w a.aio_buf)

-- `aio_suspend` and `aio_return` as one call: the bytes are in the file if it succeeds.
unfoldable pub wait_on : Writer → Option Aio → Status
wait_on w none = ok w
wait_on w (some a) =
    if next_call w
    then ok (record w {
      file = file_write w.file a.aio_offset (aio_bytes w a);
      outstanding = none;
      calls = after_call w;
    })
    else failed (record w { calls = after_call w })

unfoldable pub wait_for_aio : Writer → Status
unfolding wait_on
wait_for_aio w = wait_on w w.outstanding

-- `aio_write` of the active buffer, and the swap.
unfoldable pub start_aio : Writer → Status
start_aio w =
    if next_call w
    then ok (record w {
      outstanding = some (record {
        aio_buf = w.active_buffer_idx;
        aio_nbytes = w.buffer_used;
        aio_offset = w.bytes_written;
      });
      bytes_written = w.bytes_written + w.buffer_used;
      active_buffer_idx = 1 - w.active_buffer_idx;
      buffer_used = 0;
      calls = after_call w;
    })
    else failed (record w { calls = after_call w })

unfoldable pub async_flush_buffer : Writer → Status
async_flush_buffer w = if w.buffer_used == 0 then ok w else (wait_for_aio w >>= start_aio)

-- `memcpy` behind the used part of the active buffer.
unfoldable pub append_active : Writer → List ℕ → Writer
append_active w bytes =
    let filled = take w.buffer_used (buffer w w.active_buffer_idx) ++ bytes in
    record w {
      buffer_a = if w.active_buffer_idx == 0 then filled else w.buffer_a;
      buffer_b = if w.active_buffer_idx == 0 then w.buffer_b else filled;
      buffer_used = w.buffer_used + length bytes;
    }

-- `write(fd, ...)` at the descriptor's offset.
unfoldable pub write_fd : Writer → List ℕ → Status
write_fd w bytes =
    if next_call w
    then ok (record w {
      file = file_write w.file w.fd_offset bytes;
      fd_offset = w.fd_offset + length bytes;
      bytes_written = w.bytes_written + length bytes;
      calls = after_call w;
    })
    else failed (record w { calls = after_call w })

unfoldable pub buffer_write : Writer → List ℕ → Status
buffer_write w bytes =
    if ltb w.buffer_size (length bytes)
    then (async_flush_buffer w >>= wait_for_aio >>= λ w'. write_fd w' bytes)
    else if ltb w.buffer_size (w.buffer_used + length bytes)
    then (async_flush_buffer w >>= λ w'. ok (append_active w' bytes))
    else ok (append_active w bytes)

abbrev pub binary_writer_buffer_size : ℕ
binary_writer_buffer_size = 64 * 1024 * 1024

-- The state that `binwriter_create` initializes; `calls` are the outcomes of the calls to come.
unfoldable pub new_writer : ℕ → List Bool → Writer
new_writer size calls = record {
  buffer_a = [];
  buffer_b = [];
  active_buffer_idx = 0;
  buffer_used = 0;
  buffer_size = size;
  outstanding = none;
  entries_written = 0;
  bytes_written = 0;
  file = [];
  fd_offset = 0;
  calls = calls;
}

-- The allocations of the structure and of its buffers have one outcome; `open` and `fopen` are system
-- calls, and `none` is NULL.
pub binwriter_create : ℕ → Bool → List Bool → Option Writer
binwriter_create size alloc_ok calls =
    let opening = new_writer size calls in
    let opened = new_writer size (after_call opening) in
    if alloc_ok
    then (if next_call opening
        then (if next_call opened then some (new_writer size (after_call opened)) else none)
        else none)
    else none

-- `cnanolog_file_header_t`, packed, with its dictionary offset and entry count.
unfoldable pub file_header : ℕ → ℕ → ℕ → ℕ → ℕ → ℕ → List ℕ
file_header frequency start sec nsec dictionary_offset entry_count =
    le_bytes 4 0x4e414e4f
    ++ (le_bytes 2 1
        ++ (le_bytes 2 0
            ++ (le_bytes 8 frequency
                ++ (le_bytes 8 start
                    ++ (le_bytes 8 sec
                        ++ (le_bytes 4 nsec
                            ++ (le_bytes 4 0x01020304
                                ++ (le_bytes 8 dictionary_offset
                                    ++ (le_bytes 4 entry_count
                                        ++ (le_bytes 4 1 ++ le_bytes 8 0))))))))))

unfoldable pub binwriter_write_header : Writer → ℕ → ℕ → ℕ → ℕ → Status
binwriter_write_header w frequency start sec nsec =
    write_fd w (file_header frequency start sec nsec 0 0)

unfoldable pub entry_header : ℕ → ℕ → ℕ → List ℕ
entry_header log_id timestamp data_length =
    le_bytes 4 log_id ++ (le_bytes 8 timestamp ++ le_bytes 2 data_length)

-- `data_len` is a `uint16_t`, so the test against CNANOLOG_MAX_ENTRY_SIZE never fails. The data are
-- the first `data_len` bytes of `arg_data`.
unfoldable pub binwriter_write_entry : Writer → ℕ → ℕ → List ℕ → ℕ → Status
binwriter_write_entry w log_id timestamp arg_data data_len =
    buffer_write w (entry_header log_id timestamp data_len) >>= λ w1.
    (if ltb 0 data_len then buffer_write w1 (take data_len arg_data) else ok w1) >>= λ w2.
    ok (record w2 { entries_written = (w2.entries_written + 1) % 2 ^ 32 })

unfoldable pub binwriter_flush : Writer → Status
unfolding async_flush_buffer
binwriter_flush w = async_flush_buffer w

abbrev pub binwriter_get_entry_count : Writer → ℕ
binwriter_get_entry_count w = w.entries_written

abbrev pub binwriter_get_bytes_written : Writer → ℕ
binwriter_get_bytes_written w = w.bytes_written

abbrev pub binwriter_get_buffered_bytes : Writer → ℕ
binwriter_get_buffered_bytes w = w.buffer_used
