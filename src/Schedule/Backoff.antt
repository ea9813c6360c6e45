-- ===== src/Schedule/Backoff.antt =====
-- internal/schedule/schedule.go: how the back-off follows from the failures of the passes.
use Prim.Native.Nat.{min}
use native.Mathlib.Nat.{pow-suc}
use datum.Prelude.{
  ℕ, zero, suc, ◌+◌, ◌^◌, ◌≤◌, ◌≡◌, refl, ap, ◌∙◌, List, [], ◌∷◌, arith, leb, eqb, if◌then◌else◌,
}
use datum.Schedule.{Schedule, Failure, upstream, local, backoff, note_failure}

-- Record, for one pass after another.
unfoldable pub note_failures : List Failure → Schedule → Schedule
note_failures [] s = s
note_failures (f ∷ fs) s = note_failures fs (note_failure f s)

-- How many of the last passes in a row failed upstream, if `k` did before.
abbrev pub streak : ℕ → List Failure → ℕ
streak k [] = k
streak k (upstream ∷ fs) = streak (k + 1) fs
streak k (local ∷ fs) = streak 0 fs
streak k (Failure.none ∷ fs) = streak 0 fs

-- Backoff, of the counter.
abbrev pub multiplier : ℕ → ℕ
multiplier n = if eqb n 0 then 1 else if leb 3 n then 8 else 2 ^ n

pub backoff-multiplier : (s : Schedule) (n : ℕ) → s.upstream_failures ≡ n → backoff s ≡ multiplier n
unfolding backoff
backoff-multiplier s n h = ap multiplier h

pub note_failure-upstream :
    (s : Schedule) (k : ℕ)
    → s.upstream_failures ≡ min k 3
    → (note_failure upstream s).upstream_failures ≡ min (k + 1) 3
unfolding note_failure
note_failure-upstream s zero h = ground (arith, backoff-multiplier s 0 h)
note_failure-upstream s (suc zero) h = ground (arith, backoff-multiplier s 1 h)
note_failure-upstream s (suc (suc zero)) h = ground (arith, backoff-multiplier s 2 h)
note_failure-upstream s (suc (suc (suc k))) h =
    let three : s.upstream_failures ≡ 3 = omega arith in
    ground (arith, backoff-multiplier s 3 three)

-- The counter holds the length of the streak, up to three.
counter-streak :
    (fs : List Failure) (k : ℕ) (s : Schedule)
    → s.upstream_failures ≡ min k 3
    → (note_failures fs s).upstream_failures ≡ min (streak k fs) 3
unfolding note_failures
counter-streak [] k s h = h
counter-streak (upstream ∷ fs) k s h =
    counter-streak fs (k + 1) (note_failure upstream s) (note_failure-upstream s k h)
counter-streak (local ∷ fs) k s h =
    counter-streak fs 0 (note_failure local s) (unfold note_failure in omega arith)
counter-streak (Failure.none ∷ fs) k s h =
    counter-streak fs 0 (note_failure Failure.none s) (unfold note_failure in omega arith)

eight-le-pow : (k : ℕ) → 8 ≤ 2 ^ suc (suc (suc k))
eight-le-pow zero = omega arith
eight-le-pow (suc k) = omega (arith, pow-suc 2 (suc (suc (suc k))), eight-le-pow k)

pub multiplier-streak : (k : ℕ) → multiplier (min k 3) ≡ min (2 ^ k) 8
multiplier-streak zero = refl
multiplier-streak (suc zero) = refl
multiplier-streak (suc (suc zero)) = refl
multiplier-streak (suc (suc (suc k))) =
    let three : min (suc (suc (suc k))) 3 ≡ 3 = omega arith in
    rw three (omega (arith, eight-le-pow k))

-- From a schedule without failures, whatever the passes reported, the back-off is 2 to the number of upstream failures in a row at
-- the end, and 8 at most: any other outcome, a local failure too, resets it to 1.
pub backoff-streak :
    (s : Schedule) (fs : List Failure)
    → s.upstream_failures ≡ 0
    → backoff (note_failures fs s) ≡ min (2 ^ streak 0 fs) 8
backoff-streak s fs h =
    backoff-multiplier (note_failures fs s) _ (counter-streak fs 0 s (omega arith))
    ∙ multiplier-streak (streak 0 fs)
