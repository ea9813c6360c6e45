-- ===== src/State.antt =====
-- internal/state/state.go: the vocabulary that a pass reports in.
pub mod Severity
use datum.Prelude.{Bool, true, false, ◌||◌, List, [], ◌∷◌, if◌then◌else◌}

pub data Action : Type 0 where
  none create update remove skip : Action

-- Action.Changes
unfoldable pub changes : Action → Bool
changes create = true
changes update = true
changes remove = true
changes _ = false

-- Where one resource stands within a pass.
pub data Resource : Type 0 where
  pending applying converged drifted failed blocked skipped : Resource

-- The condition of a whole host.
pub data Host : Type 0 where
  unknown host_converged host_drifted host_failed degraded awaiting_reboot : Host

pub data Outcome : Type 0 where
  outcome_converged outcome_changed outcome_failed outcome_drifted : Outcome

-- The three variables of the loop in HostFrom.
pub record Seen : Type 0 where
  pub any_failed : Bool
  pub any_skipped : Bool
  pub any_drifted : Bool

-- The body of the loop.
unfoldable pub note : Seen → Resource → Seen
note s failed = record s { any_failed = true }
note s blocked = record s { any_failed = true }
note s skipped = record s { any_skipped = true }
note s drifted = record s { any_drifted = true }
note s _ = s

unfoldable pub note_all : Seen → List Resource → Seen
unfolding note
note_all s [] = s
note_all s (r ∷ rs) = note_all (note s r) rs

abbrev pub nothing_seen : Seen
nothing_seen = record { any_failed = false; any_skipped = false; any_drifted = false }

unfoldable pub host_of : Seen → Host
host_of s =
    if s.any_failed
    then host_failed
    else if s.any_skipped
    then degraded
    else if s.any_drifted
    then host_drifted
    else host_converged

-- HostFrom
unfoldable pub host_from : List Resource → Host
unfolding note_all host_of
host_from [] = host_converged
host_from (r ∷ rs) = host_of (note_all nothing_seen (r ∷ rs))
