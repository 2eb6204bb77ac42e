-- ===== src/Staging.antt =====
-- src/staging_buffer.c: the single-producer, single-consumer byte buffer of one thread.
-- The functions take the buffer's size as a parameter; the source fixes it to 128 MB. Each atomic
-- access is one step here; the NULL checks of the buffer pointer are left out.
pub mod Memory
pub mod Bounds
pub mod Queue
pub mod Wrap
use cnano_log.Base.{
  ℕ, zero, suc, ◌+◌, ◌-◌, ◌*◌, ◌/◌, ◌%◌, ◌^◌, List, [], ◌∷◌, ◌++◌, Option, some, none, Bool, true,
  false, ◌&&◌, if◌then◌else◌, ltb, leb, ◌==◌, replicate, length,
}
use cnano_log.Base.Bytes.{le_bytes}
use cnano_log.Format.{entry_header_size}
use cnano_log.Staging.Memory.{write_at, slice}

-- `staging_buffer_t`; `mem` is its `data` array.
pub record StagingBuffer : Type 0 where
  pub write_pos : ℕ
  pub committed : ℕ
  pub read_pos : ℕ
  pub thread_id : ℕ
  pub active : ℕ
  pub mem : List ℕ

abbrev pub staging_buffer_size : ℕ
staging_buffer_size = 128 * 1024 * 1024

abbrev pub wrap_marker_log_id : ℕ
wrap_marker_log_id = 0xffff_ffff

-- `size_t` arithmetic
abbrev pub add_size : ℕ → ℕ → ℕ
add_size a b = (a + b) % 2 ^ 64

abbrev pub sub_size : ℕ → ℕ → ℕ
sub_size a b = (2 ^ 64 + a - b) % 2 ^ 64

-- The header that tells the consumer to go on at the start.
unfoldable pub wrap_marker : List ℕ
wrap_marker = le_bytes 4 wrap_marker_log_id ++ (le_bytes 8 0 ++ le_bytes 2 0)

module _ (size : ℕ) where
  -- `none` is a failed allocation.
  unfoldable pub staging_buffer_create : Bool → ℕ → Option StagingBuffer
  staging_buffer_create alloc_ok thread_id =
      if alloc_ok
      then some (record {
        write_pos = 0;
        committed = 0;
        read_pos = 0;
        thread_id = thread_id;
        active = 1;
        mem = replicate size 0;
      })
      else none

  -- The offset of the reserved bytes in `data`, and the buffer afterwards.
  unfoldable pub staging_reserve : StagingBuffer → ℕ → Option ℕ × StagingBuffer
  staging_reserve sb nbytes =
      let available = sub_size size sb.write_pos in
      let wrap_marker_end = add_size sb.write_pos entry_header_size in
      let marked = record sb { mem = write_at sb.mem sb.write_pos wrap_marker } in
      if nbytes == 0
      then (none, sb)
      else if ltb available nbytes
      then (if ltb (add_size nbytes 64) sb.read_pos && leb entry_header_size available
          then (if ltb size wrap_marker_end
              then (none, marked)
              else (some 0, record marked { committed = wrap_marker_end; write_pos = nbytes }))
          else (none, sb))
      else (some sb.write_pos, record sb { write_pos = add_size sb.write_pos nbytes })

  unfoldable pub staging_commit : StagingBuffer → ℕ → StagingBuffer
  staging_commit sb nbytes = if nbytes == 0 then sb else record sb { committed = sb.write_pos }

  unfoldable pub staging_adjust_reservation : StagingBuffer → ℕ → ℕ → StagingBuffer
  staging_adjust_reservation sb reserved_bytes actual_bytes =
      if ltb reserved_bytes actual_bytes
      then sb
      else (let unused = sub_size reserved_bytes actual_bytes in
          if ltb 0 unused then record sb { write_pos = sub_size sb.write_pos unused } else sb)

  unfoldable pub staging_available : StagingBuffer → ℕ
  staging_available sb =
      if leb sb.read_pos sb.committed
      then sub_size sb.committed sb.read_pos
      else sub_size size sb.read_pos

  -- The bytes copied to `out`; their number is the return value.
  unfoldable pub staging_read : StagingBuffer → ℕ → List ℕ
  unfolding staging_available
  staging_read sb max_len =
      let available = staging_available sb in
      if max_len == 0
      then []
      else if available == 0
      then []
      else slice sb.mem sb.read_pos (if ltb available max_len then available else max_len)

  unfoldable pub staging_consume : StagingBuffer → ℕ → StagingBuffer
  staging_consume sb nbytes =
      let read_pos = add_size sb.read_pos nbytes in
      if nbytes == 0
      then sb
      else if leb (sub_size size entry_header_size) read_pos
          && (leb sb.committed read_pos && (sb.write_pos == 0))
      then record sb { read_pos = 0 }
      else record sb { read_pos = read_pos }

  unfoldable pub staging_wrap_read_pos : StagingBuffer → StagingBuffer
  staging_wrap_read_pos sb = record sb { read_pos = 0 }

  unfoldable pub staging_reset : StagingBuffer → StagingBuffer
  staging_reset sb = record sb { write_pos = 0; committed = 0; read_pos = 0 }

  -- A `uint8_t`
  unfoldable pub staging_fill_percent : StagingBuffer → ℕ
  staging_fill_percent sb = sb.write_pos * 100 % 2 ^ 64 / size % 256

  unfoldable pub staging_is_full : StagingBuffer → Bool
  staging_is_full sb = leb size sb.write_pos

  unfoldable pub staging_is_empty : StagingBuffer → Bool
  staging_is_empty sb = sb.committed == sb.read_pos
