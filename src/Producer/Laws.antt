-- ===== src/Producer/Laws.antt =====
-- src/cnanolog.c: what a log call reserves, and what it publishes.
use cnano_log.Base.{
  ℕ, ◌+◌, ◌-◌, ◌%◌, ◌^◌, ◌<◌, ◌≤◌, ◌≡◌, ◌≢◌, refl, ap, ◌∙◌, List, [], ◌∷◌, ◌++◌, Option, some, none,
  true, false, ◌&&◌, not, if◌then◌else◌, ◌⊎◌, inl, inr, ltb, ◌==◌, ==_ne, length, length-append,
  All, arith, le→ltb_false,
}
use cnano_log.Base.Bytes.{le_bytes, length-le_bytes}
use cnano_log.Outcome.{Outcome, done, rejected, fault}
use cnano_log.Format.{ArgType, entry_header_size}
use cnano_log.Args.{Kind, int32, int64, uint32, uint64, double, pointer, char, kind_type, width}
use cnano_log.Args.{Arg, scalar, text, encode, encode_args, IsArg, types}
use cnano_log.Registry.{uint32_max}
use cnano_log.ArgPacking.{VaArg, arg_pack_write_fast}
use cnano_log.ArgPacking.Laws.{va_list, arg_pack_write_fast_lem}
use cnano_log.Staging.{StagingBuffer, staging_reserve, staging_commit, staging_adjust_reservation}
use cnano_log.Staging.Memory.{write_at, length-write_at}
use cnano_log.Staging.Bounds.{InBounds}
use cnano_log.Staging.Queue.{IsLinear, commit-pending, pending, reserve-write, publish-pending}
use cnano_log.Writer.{entry_header}
use cnano_log.Producer.{
  max_log_entry_size, arg_size, reserve_size, Logger, finish, give_back, begun, dropped, fill,
  log_buffer, log_binary,
}

abbrev pub HasText : List Arg → Type 0
HasText [] = ⊥
HasText (scalar k w ∷ args) = HasText args
HasText (text s ∷ args) = Unit

reserve_size-scalar :
    (k : Kind) (n : ℕ) (ts : List ArgType)
    → reserve_size n (kind_type k ∷ ts) ≡ reserve_size (n + width k) ts
unfolding reserve_size arg_size kind_type width
reserve_size-scalar int32 n ts = refl
reserve_size-scalar int64 n ts = refl
reserve_size-scalar uint32 n ts = refl
reserve_size-scalar uint64 n ts = refl
reserve_size-scalar double n ts = refl
reserve_size-scalar pointer n ts = refl
reserve_size-scalar char n ts = refl

-- The size that a call reserves is that of the largest entry if there is a string, and otherwise
-- exactly that of the header and the packed arguments.
pub reserve_size_lem :
    (n : ℕ) (args : List Arg)
    → HasText args × (reserve_size n (types args) ≡ max_log_entry_size)
      ⊎ (reserve_size n (types args) ≡ n + length (encode_args args))
unfolding reserve_size
reserve_size_lem n [] = inr (omega arith)
reserve_size_lem n (text s ∷ args) = inl (tt, refl)
reserve_size_lem n (scalar k w ∷ args) =
    let size = length-append (le_bytes (width k) w) (encode_args args) in
    let own = length-le_bytes (width k) w in
    elim (reserve_size_lem (n + width k) args) [
      | inl (t, e) ↦ inl (t, reserve_size-scalar k n (types args) ∙ e)
      | inr e ↦ inr (reserve_size-scalar k n (types args) ∙ e ∙ omega arith)
    ]

width_positive : (k : Kind) → 0 < width k
unfolding width
width_positive int32 = omega arith
width_positive int64 = omega arith
width_positive uint32 = omega arith
width_positive uint64 = omega arith
width_positive double = omega arith
width_positive pointer = omega arith
width_positive char = omega arith

args_positive : (args : List Arg) → 0 < length args → 0 < length (encode_args args)
args_positive [] h = absurd (omega arith)
args_positive (text s ∷ args) h = omega (
  arith,
  length-append (le_bytes 4 (length s)) s,
  length-append (encode (text s)) (encode_args args),
  length-le_bytes 4 (length s),
)
args_positive (scalar k w ∷ args) h = omega (
  arith,
  length-append (le_bytes (width k) w) (encode_args args),
  length-le_bytes (width k) w,
  width_positive k,
)

-- An over-long reservation is cut to the entry.
cut-write :
    (size : ℕ) (sb : StagingBuffer) (m : List ℕ) (reserved actual : ℕ)
    → InBounds size sb
    → (reserved ≡ max_log_entry_size) ⊎ (reserved ≡ actual)
    → actual ≤ reserved
    → reserved ≤ size - sb.write_pos
    → (if (reserved == max_log_entry_size) && not (actual == reserved)
        then staging_adjust_reservation size
            (record sb { write_pos = sb.write_pos + reserved; mem = m })
            reserved
            actual
        else record sb { write_pos = sb.write_pos + reserved; mem = m })
      ≡ record sb { write_pos = sb.write_pos + actual; mem = m }
unfolding staging_adjust_reservation
cut-write size sb m reserved actual v kind le room = ground (arith, v)

commit-write_pos :
    (size : ℕ) (sb : StagingBuffer) (n : ℕ)
    → 0 < n
    → (staging_commit size sb n).committed ≡ (staging_commit size sb n).write_pos
unfolding staging_commit
commit-write_pos size sb n h = ground arith

length-entry_header : (id time n : ℕ) → length (entry_header id time n) ≡ 14
unfolding entry_header le_bytes
length-entry_header id time n = refl

-- What a finished call publishes.
abbrev pub Published : ℕ → StagingBuffer → List ℕ → Option StagingBuffer → Type 0
Published size sb entry none = ⊥
Published size sb entry (some sb') =
    (pending sb' ≡ pending sb ++ entry) × IsLinear size sb' × (sb'.committed ≡ sb'.write_pos)

finish-Published :
    (size id time : ℕ) (ts : List ArgType) (l : Logger) (sb : StagingBuffer) (reserved : ℕ)
    (bytes : List ℕ)
    → IsLinear size sb
    → sb.committed ≡ sb.write_pos
    → (reserved ≡ max_log_entry_size) ⊎ (reserved ≡ 14 + length bytes)
    → 14 + length bytes ≤ reserved
    → reserved ≤ size - sb.write_pos
    → Published size sb
        (entry_header id time (length bytes % 2 ^ 16) ++ bytes)
        (finish size id time ts l
          (record sb { write_pos = sb.write_pos + reserved })
          sb.write_pos
          reserved
          bytes).sb
unfolding finish
finish-Published size id time ts l sb reserved bytes v all kind enough room =
    let head = entry_header id time (length bytes % 2 ^ 16) in
    let entry = head ++ bytes in
    let long : length entry ≡ 14 + length bytes =
      omega
        (arith, length-append head bytes, length-entry_header id time (length bytes % 2 ^ 16)) in
    let m = write_at sb.mem sb.write_pos entry in
    let sb2 : StagingBuffer = record sb {
      write_pos = sb.write_pos + (14 + length bytes);
      mem = m;
    } in
    let v2 : IsLinear size sb2 = omega (arith, v, length-write_at sb.mem sb.write_pos entry) in
    let p = publish-pending size sb entry v all (omega arith) (omega arith) in
    let q = rw (reserve-write size v (length entry) (omega arith) (omega arith), long) at p in
    rw (cut-write size sb m reserved (14 + length bytes) v.bounds kind enough room) (
      q,
      (commit-pending size {sb = sb2} v2 (14 + length bytes) (omega arith)).1,
      commit-write_pos size sb2 (14 + length bytes) (omega arith),
    )

length-types : (args : List Arg) → length (types args) ≡ length args
length-types [] = refl
length-types (a ∷ args) = omega (arith, length-types args)

-- Whether a call with arguments packed nothing.
packed_some :
    (args : List Arg) → (not (length (types args) == 0) && (length (encode_args args) == 0)) ≡ false
packed_some [] = refl
packed_some (a ∷ args) =
    let positive : (length (encode_args (a ∷ args)) == 0) ≡ false =
      ==_ne _ 0 (λ e. absurd (omega (arith, e, args_positive (a ∷ args) (omega arith)))) in
    ground (arith, positive)

pub log_buffer-reserved :
    (size id time : ℕ) (ts : List ArgType) (l : Logger) (sb sb' : StagingBuffer) (off : ℕ)
    (args : List VaArg)
    → staging_reserve size sb (reserve_size entry_header_size ts) ≡ (some off, sb')
    → log_buffer size id time ts l sb args
      ≡ fill size id time ts l sb' off (reserve_size entry_header_size ts) args
unfolding log_buffer
log_buffer-reserved size id time ts l sb sb' off args e =
    ap
      (λ (r : Option ℕ × StagingBuffer). elim (r.0) as (λ _. Outcome Logger) [
        | none ↦ done (record (dropped l) { sb = some (r.1) })
        | some off ↦ fill size id time ts l (r.1) off (reserve_size entry_header_size ts) args
      ])
      e

fill-done :
    (size id time : ℕ) (ts : List ArgType) (l : Logger) (sb : StagingBuffer) (off reserved : ℕ)
    (args : List VaArg) (bytes : List ℕ)
    → arg_pack_write_fast (reserved - entry_header_size) ts args ≡ done bytes
    → (not (length ts == 0) && (length bytes == 0)) ≡ false
    → fill size id time ts l sb off reserved args
      ≡ done (finish size id time ts l sb off reserved bytes)
unfolding fill
fill-done size id time ts l sb off reserved args bytes e nonempty =
    ap
      (λ (o : Outcome (List ℕ)). elim o as (λ _. Outcome Logger) [
        | done bytes ↦
            if not (length ts == 0) && (length bytes == 0)
            then done
                (give_back size id time ts l (begun size id time ts sb off reserved args) reserved)
            else done (finish size id time ts l sb off reserved bytes)
        | rejected ↦
            done (give_back size id time ts l (begun size id time ts sb off reserved args) reserved)
        | fault ↦ fault
      ])
      e
    ∙ rw nonempty

-- A log call of a running logger whose entry fits the reserved size, with that room before the end
-- of a buffer with no reservation open, commits exactly the entry's header and the packed arguments
-- behind what is pending, counts the call and drops nothing. The buffer has not wrapped around: it
-- is not read beyond what is committed.
pub log_binary-Published :
    (size id time : ℕ) (l : Logger) (sb : StagingBuffer) (args : List Arg)
    → l.sb ≡ some sb
    → IsLinear size sb
    → sb.committed ≡ sb.write_pos
    → id ≢ uint32_max
    → All IsArg args
    → 14 + length (encode_args args) ≤ reserve_size 14 (types args)
    → reserve_size 14 (types args) ≤ size - sb.write_pos
    → (l' : Logger) × (log_binary size id time (types args) true l (va_list args) ≡ done l')
      × Published size sb
          (entry_header id time (length (encode_args args) % 2 ^ 16) ++ encode_args args)
          l'.sb
      × (l'.total_logs ≡ (l.total_logs + 1) % 2 ^ 64)
      × (l'.dropped_logs ≡ l.dropped_logs)
unfolding log_binary finish
log_binary-Published size id time l sb args here v all known h enough room =
    let reserved = reserve_size 14 (types args) in
    let counted = record l { total_logs = (l.total_logs + 1) % 2 ^ 64 } in
    let id_ok : (id == uint32_max) ≡ false = ==_ne id uint32_max known in
    let fits : ltb (reserved - 14) (length (encode_args args)) ≡ false =
      le→ltb_false _ _ (omega arith) in
    let packs : arg_pack_write_fast (reserved - 14) (types args) (va_list args)
        ≡ done (encode_args args) =
      arg_pack_write_fast_lem (reserved - 14) args h ∙ rw fits in
    let kind : (reserved ≡ max_log_entry_size) ⊎ (reserved ≡ 14 + length (encode_args args)) =
      (elim (reserve_size_lem 14 args) [ inl (t, e) ↦ inl e | inr e ↦ inr e ]) in
    let sb1 : StagingBuffer = record sb { write_pos = sb.write_pos + reserved } in
    let end_ =
      finish size id time (types args) counted (record sb { write_pos = sb.write_pos + reserved })
        sb.write_pos reserved (encode_args args) in
    (
      end_,
      rw (id_ok, here)
          (log_buffer-reserved size id time (types args) counted sb sb1 sb.write_pos (va_list args)
              (reserve-write size v reserved (omega arith) room)
            ∙ fill-done size id time (types args) counted sb1 sb.write_pos reserved (va_list args)
                (encode_args args) packs (packed_some args)),
      finish-Published size id time (types args) counted sb reserved (encode_args args) v all kind
          enough room,
      refl,
      refl,
    )
