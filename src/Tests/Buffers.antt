-- ===== src/Tests/Buffers.antt =====
-- A staging buffer of 256 bytes.
use cnano_log.Base.{
  ◌-◌, take, drop, ℕ, ◌≤◌, ◌≡◌, refl, List, [], ◌∷◌, ◌++◌, some, arith, length, length-replicate,
  replicate,
}
use cnano_log.Staging.{
  StagingBuffer, staging_reserve, staging_commit, staging_available, staging_read, staging_consume,
  staging_wrap_read_pos,
}
use cnano_log.Staging.Memory.{write_at, slice}
use cnano_log.Staging.Bounds.{InBounds, Step, here, next, Reach-InBounds}
use cnano_log.Staging.Queue.{IsLinear, pending, Run, Run-queue}
use cnano_log.Staging.Wrap.{MustWrap, staging_available-stale, staging_reserve-overruns}

abbrev fresh : StagingBuffer
fresh = record {
  write_pos = 0;
  committed = 0;
  read_pos = 0;
  thread_id = 7;
  active = 1;
  mem = replicate 256 0;
}

fresh-InBounds : InBounds 256 fresh
fresh-InBounds = omega (arith, length-replicate {A = ℕ} 256 0)

fresh-IsLinear : IsLinear 256 fresh
fresh-IsLinear = omega (arith, fresh-InBounds)

-- Twelve bytes are committed and not read.
abbrev loaded : StagingBuffer
loaded = record fresh { write_pos = 240; committed = 240; read_pos = 228 }

loaded-IsLinear : IsLinear 256 loaded
loaded-IsLinear = omega (arith, length-replicate {A = ℕ} 256 0)

abbrev entry : List ℕ
entry = replicate 20 1

loaded-MustWrap : MustWrap 256 loaded (length entry)
loaded-MustWrap = omega (arith, loaded-IsLinear)

reserve-10 : (staging_reserve 256 loaded 10).0 ≡ some 240
unfolding staging_reserve slice
reserve-10 = refl

available-loaded : 5 ≤ staging_available 256 loaded
unfolding staging_available
available-loaded = omega arith

-- Four bytes are reserved, stored and committed, and three of them are read.
abbrev four : List ℕ
four = 1 ∷ (2 ∷ (3 ∷ (4 ∷ [])))

abbrev filled : StagingBuffer
filled = record fresh { write_pos = 4; mem = write_at (replicate 256 0) 0 four }

abbrev committed_four : StagingBuffer
committed_four = staging_commit 256 filled 4

filled-Run : Run 256 filled [] []
unfolding staging_reserve slice
filled-Run =
    Run.store 0 four (omega arith)
      (Run.reserve 4 (omega arith) (omega arith) (Run.create fresh-IsLinear refl))

available-four : 3 ≤ staging_available 256 committed_four
unfolding staging_available staging_commit
available-four = omega arith

Run-queue_example :
    (slice filled.mem 0 4
      ≡ staging_read 256 committed_four 3 ++ pending (staging_consume 256 committed_four 3))
    × IsLinear 256 (staging_consume 256 committed_four 3)
Run-queue_example =
    Run-queue 256 (Run.consume 3 available-four (Run.commit 4 (omega arith) filled-Run))

staging_available-stale_example :
    staging_available 256
      (staging_wrap_read_pos 256 (staging_consume 256 ((staging_reserve 256 loaded 20).1) 26))
    ≡ 254
staging_available-stale_example = staging_available-stale 256 loaded 20 26 loaded-MustWrap

-- The producer went back to the start and has written up to 210, before the read position.
abbrev behind : StagingBuffer
behind = record fresh { write_pos = 210; committed = 210; read_pos = 228 }

behind-InBounds : InBounds 256 behind
behind-InBounds = omega (arith, length-replicate {A = ℕ} 256 0)

abbrev lap : List ℕ
lap = replicate 40 7

behind-unread : 22 ≤ staging_available 256 behind
unfolding staging_available
behind-unread = omega arith

staging_reserve-overruns_example :
    let r = staging_reserve 256 behind (length lap) in
    let stored = record (r.1) { mem = write_at (r.1).mem 210 lap } in
    (r.0 ≡ some 210)
    × (staging_available 256 stored ≡ staging_available 256 behind)
    × (staging_read 256 behind 22 ≡ slice behind.mem 228 22)
    × (staging_read 256 stored 22 ≡ take 22 (drop (228 - 210) lap))
staging_reserve-overruns_example =
    staging_reserve-overruns 256 behind lap 22 behind-InBounds (omega arith) (omega arith)
      behind-unread (omega (arith, length-replicate {A = ℕ} 40 7))
      (omega (arith, length-replicate {A = ℕ} 40 7))

Reach-InBounds_example : InBounds 256 (staging_commit 256 ((staging_reserve 256 loaded 20).1) 20)
Reach-InBounds_example =
    Reach-InBounds 256 loaded-IsLinear.bounds
      (next (next here (Step.reserve 20 (omega arith))) (Step.commit 20))
