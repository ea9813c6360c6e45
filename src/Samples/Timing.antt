-- ===== src/Samples/Timing.antt =====
-- Ticks and back-off of an example schedule, and the state of an example host.
use datum.Prelude.{◌*◌, ◌%◌, ◌^◌, ◌≡◌, refl, List, [], ◌∷◌, arith}
use Prim.Native.Nat.{min}
use datum.Prelude.Int.{pos, ◌≤ℤ◌, floor_mod}
use datum.Schedule.{
  Schedule, Failure, upstream, local, max_int64, backoff, effective_interval, wait, next,
}
use datum.Schedule.Next.{effective_interval-eq-min, next_on_tick, next_least}
use datum.Schedule.Backoff.{note_failures, streak, backoff-streak}
use datum.State.{skipped, converged, host_from}
use datum.State.Severity.{IsTabled, host_from-IsTabled}

-- A pass every 100 ns, at offset 30, after two upstream failures.
abbrev slow : Schedule
slow = record { interval = 100; offset = 30; upstream_failures = 2 }

effective_interval-eq-min_example : effective_interval slow ≡ min (100 * backoff slow) max_int64
effective_interval-eq-min_example = effective_interval-eq-min slow

next_on_tick_example :
    (pos 1 ≤ℤ wait slow (pos 1000))
    × (wait slow (pos 1000) ≤ℤ pos (effective_interval slow))
    × (floor_mod (next slow (pos 1000)) (effective_interval slow) ≡ 30 % effective_interval slow)
next_on_tick_example = next_on_tick slow (pos 1000) (omega arith)

next_least_example : next slow (pos 1000) ≤ℤ pos 1630
unfolding effective_interval floor_mod
next_least_example = next_least slow (pos 1000) (pos 1630) (omega arith) (omega arith) refl

abbrev reports : List Failure
reports = upstream ∷ local ∷ upstream ∷ upstream ∷ []

backoff-streak_example :
    backoff (note_failures reports (record { interval = 100; offset = 30; upstream_failures = 0 }))
    ≡ min (2 ^ streak 0 reports) 8
backoff-streak_example =
    backoff-streak (record { interval = 100; offset = 30; upstream_failures = 0 }) reports refl

host_from-IsTabled_example :
    IsTabled
      (converged ∷ skipped ∷ converged ∷ [])
      (host_from (converged ∷ skipped ∷ converged ∷ []))
host_from-IsTabled_example = host_from-IsTabled (converged ∷ skipped ∷ converged ∷ []) refl refl
