-- ===== src/Producer/Drops.antt =====
-- src/cnanolog.c: a log call whose arguments do not fit.
use cnano_log.Base.{
  ℕ, ◌+◌, ◌-◌, ◌%◌, ◌^◌, ◌<◌, ◌≤◌, ◌≡◌, ◌≢◌, ap, ◌∙◌, ◌⊎◌, ◌++◌, List, [], some, true, not, ◌&&◌,
  false, ◌==◌, ==_ne, if◌then◌else◌, ltb, lt→ltb, length, All, arith, inl, inr,
}
use cnano_log.Outcome.{Outcome, done, rejected, fault}
use cnano_log.Format.{ArgType, entry_header_size}
use cnano_log.Args.{Arg, encode_args, IsArg, types}
use cnano_log.Registry.{uint32_max}
use cnano_log.ArgPacking.{VaArg, arg_pack_write_fast, stored_args}
use cnano_log.ArgPacking.Stored.{length-stored_args}
use cnano_log.Base.Bytes.{le_bytes}
use cnano_log.Staging.Memory.{write_at, slice, length-write_at, slice-write_at_ne}
use cnano_log.ArgPacking.Laws.{va_list, arg_pack_write_fast_lem}
use cnano_log.Staging.{StagingBuffer, staging_adjust_reservation}
use cnano_log.Staging.Bounds.{InBounds}
use cnano_log.Staging.Queue.{IsLinear, pending, reserve-write}
use cnano_log.Producer.{
  reserve_size, max_log_entry_size, Logger, finish, give_back, begun, fill, log_binary,
}
use cnano_log.Producer.Laws.{reserve_size_lem, log_buffer-reserved}

fill-rejected :
    (size id time : ℕ) (ts : List ArgType) (l : Logger) (sb : StagingBuffer) (off reserved : ℕ)
    (args : List VaArg)
    → arg_pack_write_fast (reserved - entry_header_size) ts args ≡ rejected
    → fill size id time ts l sb off reserved args
      ≡ done (give_back size id time ts l (begun size id time ts sb off reserved args) reserved)
unfolding fill
fill-rejected size id time ts l sb off reserved args e =
    ap
      (λ (o : Outcome (List ℕ)). elim o as (λ _. Outcome Logger) [
        | done bytes ↦
            if not (length ts == 0) && (length bytes == 0)
            then done
                (give_back size id time ts l (begun size id time ts sb off reserved args) reserved)
            else done (finish size id time ts l sb off reserved bytes)
        | rejected ↦
            done (give_back size id time ts l (begun size id time ts sb off reserved args) reserved)
        | fault ↦ fault
      ])
      e

-- Giving back the whole of the last reservation undoes it.
give_back-whole :
    (size : ℕ) (sb : StagingBuffer) (reserved : ℕ)
    → InBounds size sb
    → 0 < reserved
    → reserved ≤ size - sb.write_pos
    → staging_adjust_reservation size (record sb { write_pos = sb.write_pos + reserved }) reserved 0
      ≡ sb
unfolding staging_adjust_reservation
give_back-whole size sb reserved v pos room = ground (arith, v)

length-begun :
    (size id time : ℕ) (ts : List ArgType) (sb : StagingBuffer) (off reserved : ℕ)
    (args : List VaArg)
    → length ((begun size id time ts sb off reserved args).mem) ≡ length sb.mem
unfolding begun
length-begun size id time ts sb off reserved args =
    length-write_at (write_at sb.mem off (le_bytes 4 id ++ le_bytes 8 time)) (off + 14)
      (stored_args (reserved - 14) ts (record { write_ptr = []; args = args }))
    ∙ length-write_at sb.mem off (le_bytes 4 id ++ le_bytes 8 time)

-- Beside a range is beside the ranges in it.
within :
    (p n off reserved k j : ℕ)
    → off ≤ k
    → k + j ≤ off + reserved
    → (p + n ≤ off) ⊎ (off + reserved ≤ p)
    → (p + n ≤ k) ⊎ (k + j ≤ p)
within p n off reserved k j lo hi (inl before) = inl (omega arith)
within p n off reserved k j lo hi (inr behind) = inr (omega arith)

-- What is stored stays within the reservation.
begun-outside :
    (size id time : ℕ) (ts : List ArgType) (sb : StagingBuffer) (off reserved : ℕ)
    (args : List VaArg) (p n : ℕ)
    → 14 ≤ reserved
    → (p + n ≤ off) ⊎ (off + reserved ≤ p)
    → slice ((begun size id time ts sb off reserved args).mem) p n ≡ slice sb.mem p n
unfolding begun le_bytes
begun-outside size id time ts sb off reserved args p n enough apart =
    let start = le_bytes 4 id ++ le_bytes 8 time in
    let packed = stored_args (reserved - 14) ts (record { write_ptr = []; args = args }) in
    let short : length packed ≤ reserved - 14 =
      length-stored_args (reserved - 14) ts (record { write_ptr = []; args = args })
        (omega arith) in
    slice-write_at_ne (write_at sb.mem off start) (off + 14) packed p n
      (within p n off reserved (off + 14) (length packed) (omega arith) (omega arith) apart)
    ∙ slice-write_at_ne sb.mem off start p n
        (within p n off reserved off 12 (omega arith) (omega arith) apart)

-- A log call of a running logger whose packed arguments do not fit the size that it reserves is
-- counted and dropped. The buffer, which has not wrapped around and had the room for that size, is
-- as before but for the bytes of the reservation, which is given back: its positions, its size, what
-- is pending, and the bytes before and behind the reservation are the same.
pub log_binary-dropped :
    (size id time : ℕ) (l : Logger) (sb : StagingBuffer) (args : List Arg)
    → l.sb ≡ some sb
    → IsLinear size sb
    → id ≢ uint32_max
    → All IsArg args
    → reserve_size 14 (types args) < 14 + length (encode_args args)
    → reserve_size 14 (types args) ≤ size - sb.write_pos
    → (m : List ℕ) × (log_binary size id time (types args) true l (va_list args)
        ≡ done (record l {
          sb = some (record sb { mem = m });
          total_logs = (l.total_logs + 1) % 2 ^ 64;
          dropped_logs = (l.dropped_logs + 1) % 2 ^ 64;
        }))
      × (length m ≡ length sb.mem)
      × (pending (record sb { mem = m }) ≡ pending sb)
      × (slice m 0 sb.write_pos ≡ slice sb.mem 0 sb.write_pos)
      × (let end_ = sb.write_pos + reserve_size 14 (types args) in
          slice m end_ (size - end_) ≡ slice sb.mem end_ (size - end_))
unfolding log_binary give_back
log_binary-dropped size id time l sb args here v known h long room =
    let reserved = reserve_size 14 (types args) in
    let counted = record l { total_logs = (l.total_logs + 1) % 2 ^ 64 } in
    let id_ok : (id == uint32_max) ≡ false = ==_ne id uint32_max known in
    let max_or_all : reserved ≡ max_log_entry_size = (elim (reserve_size_lem 14 args) [
      | inl (t, e) ↦ e
      | inr e ↦ omega arith
    ]) in
    let over : ltb (reserved - 14) (length (encode_args args)) ≡ true = lt→ltb _ _ (omega arith) in
    let packs : arg_pack_write_fast (reserved - 14) (types args) (va_list args) ≡ rejected =
      arg_pack_write_fast_lem (reserved - 14) args h ∙ rw over in
    let sb1 : StagingBuffer = record sb { write_pos = sb.write_pos + reserved } in
    let stored = begun size id time (types args) sb1 sb.write_pos reserved (va_list args) in
    let outside =
      begun-outside size id time (types args) sb1 sb.write_pos reserved (va_list args) in
    let same_length : length stored.mem ≡ length sb.mem =
      length-begun size id time (types args) sb1 sb.write_pos reserved (va_list args) in
    let bounds : InBounds size (record sb { mem = stored.mem }) = record {
      write_in = v.bounds.write_in;
      committed_in = v.bounds.committed_in;
      read_in = v.bounds.read_in;
      allocated = same_length ∙ v.bounds.allocated;
      small = v.bounds.small;
      header_fits = v.bounds.header_fits;
    } in
    (
      stored.mem,
      rw (id_ok, here)
          (log_buffer-reserved size id time (types args) counted sb sb1 sb.write_pos (va_list args)
              (reserve-write size v reserved (omega arith) room)
            ∙ fill-rejected size id time (types args) counted sb1 sb.write_pos reserved
                (va_list args) packs
            ∙ ap
                (λ u.
                  done
                    (record counted { sb = some u; dropped_logs = (l.dropped_logs + 1) % 2 ^ 64 }))
                (unfold begun in
                  give_back-whole size (record sb { mem = stored.mem }) reserved bounds
                    (omega arith) room)),
      same_length,
      outside sb.read_pos (sb.committed - sb.read_pos) (omega arith) (inl (omega (arith, v))),
      outside 0 sb.write_pos (omega arith) (inl (omega arith)),
      outside (sb.write_pos + reserved) (size - (sb.write_pos + reserved)) (omega arith)
          (inr (omega arith)),
    )
