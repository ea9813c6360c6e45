-- ===== src/Schedule.antt =====
-- internal/schedule/schedule.go. Times are nanoseconds, of type int64 in the code.
mod Delay
pub mod Next
pub mod Backoff
use datum.Prelude.{
  ℕ, zero, suc, ◌+◌, ◌-◌, ◌*◌, ◌/◌, ◌%◌, ◌^◌, Bool, List, [], ◌∷◌, ltb, leb, eqb, if◌then◌else◌,
}
use datum.Prelude.Int.{ℤ, pos, negsuc, pos_part, ◌+ℤ◌, ◌-ℤ◌, ltb_ℤ, leb_ℤ, rem}
use datum.Text.{Text}

-- Go's `None` is the constructor `none`.
pub data Failure : Type 0 where
  none upstream local : Failure

abbrev pub max_backoff : ℕ
max_backoff = 8

abbrev pub max_int64 : ℕ
max_int64 = 9223372036854775807

abbrev pub minute : ℕ
minute = 60000000000

pub record Schedule : Type 0 where
  pub interval : ℕ
  pub offset : ℕ
  pub upstream_failures : ℕ

-- New. `hash` is the first eight bytes of the SHA-256 sum of the host's name.
unfoldable pub new : (hash : Text → ℕ) → Text → ℤ → ℤ → Schedule
new hash host interval splay = record {
  interval = if leb_ℤ interval (pos 0) then minute else pos_part interval;
  offset = if ltb_ℤ (pos 0) splay then hash host % pos_part splay else 0;
  upstream_failures = 0;
}

-- Schedule.Backoff
unfoldable pub backoff : Schedule → ℕ
backoff s =
    if eqb s.upstream_failures 0
    then 1
    else if leb 3 s.upstream_failures
    then max_backoff
    else 2 ^ s.upstream_failures

-- Schedule.Record
unfoldable pub note_failure : Failure → Schedule → Schedule
unfolding backoff
note_failure upstream s =
    if ltb (backoff s) max_backoff
    then record s { upstream_failures = s.upstream_failures + 1 }
    else s
note_failure _ s = record s { upstream_failures = 0 }

-- The first statements of Next: the interval with the back-off applied, which may not overflow.
unfoldable pub effective_interval : Schedule → ℕ
unfolding backoff
effective_interval s =
    if ltb (max_int64 / backoff s) s.interval then max_int64 else s.interval * backoff s

-- elapsed % interval, brought into the range from 0
unfoldable pub phase : ℤ → ℕ → ℤ
unfolding rem ◌+ℤ◌
phase elapsed interval =
    let p = rem elapsed interval in if ltb_ℤ p (pos 0) then p +ℤ pos interval else p

-- The delay that Next adds to a time `elapsed` after the epoch.
unfoldable pub delay : ℕ → ℕ → ℤ → ℤ
unfolding phase ◌-ℤ◌ ◌+ℤ◌
delay offset interval elapsed =
    let d = pos (offset % interval) -ℤ phase elapsed interval in
    if leb_ℤ d (pos 0) then d +ℤ pos interval else d

-- Wait: from now to Next
unfoldable pub wait : Schedule → ℤ → ℤ
unfolding delay effective_interval
wait s elapsed = delay s.offset (effective_interval s) elapsed

-- Next, as a time after the epoch
unfoldable pub next : Schedule → ℤ → ℤ
unfolding wait ◌+ℤ◌
next s elapsed = elapsed +ℤ wait s elapsed
