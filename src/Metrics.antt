-- ===== src/Metrics.antt =====
-- internal/metrics/metrics.go and internal/report/report.go: what the agent has seen of its passes.
use datum.Prelude.{
  ◌==◌, ℕ, ◌+◌, Bool, false, not, Option, none, some, List, [], ◌∷◌, length, if◌then◌else◌,
}
use datum.Prelude.Int.{ℤ, pos}
use datum.Map.{Map, get_or, put}
use datum.Text.{Text, text_eq, bytes}

-- report.Resource
pub record ReportedResource : Type 0 where
  pub ref : Text
  pub provider : Text
  pub target : Text
  pub action : Text
  pub state : Text
  pub fields : List Text
  pub reason : Text
  pub err : Text

pub record StateCounts : Type 0 where
  pub total : ℕ
  pub converged : ℕ
  pub drifted : ℕ
  pub failed : ℕ
  pub blocked : ℕ
  pub skipped : ℕ

-- The switch in the loop of Tally.
unfoldable pub count_state : Text → StateCounts → StateCounts
count_state state out =
    if state == bytes "converged"
    then record out { converged = out.converged + 1 }
    else if state == bytes "drifted"
    then record out { drifted = out.drifted + 1 }
    else if state == bytes "failed"
    then record out { failed = out.failed + 1 }
    else if state == bytes "blocked"
    then record out { blocked = out.blocked + 1 }
    else if state == bytes "skipped"
    then record out { skipped = out.skipped + 1 }
    else out

unfoldable pub tally_from : StateCounts → List ReportedResource → StateCounts
unfolding count_state
tally_from out [] = out
tally_from out (r ∷ rs) = tally_from (count_state r.state out) rs

-- Tally
unfoldable pub tally_states : List ReportedResource → StateCounts
unfolding tally_from
tally_states resources =
    tally_from
      (record {
        total = length resources;
        converged = 0;
        drifted = 0;
        failed = 0;
        blocked = 0;
        skipped = 0;
      })
      resources

-- report.Report
pub record Report : Type 0 where
  pub host : Text
  pub revision_attempted : Text
  pub revision_applied : Text
  pub last_known_good : Text
  pub manifest : Text
  pub err : Text
  pub outcome : Text
  pub host_state : Text
  pub mode : Text
  pub started_at : ℤ
  pub finished_at : ℤ
  pub duration_ms : ℤ
  pub counts : StateCounts
  pub resources : List ReportedResource

-- Registry, without its lock and the configuration; times are nanoseconds, and `none` is the zero
-- time. The duration is kept in milliseconds.
pub record Registry : Type 0 where
  pub offset : ℕ
  pub latest : Option Report
  pub last_error : Text
  pub passes : Map Text ℕ
  pub consecutive_failures : ℕ
  pub revisions_refused : Map Text ℕ
  pub resources_refused : Map Text ℕ
  pub last_attempt : Option ℤ
  pub last_success : Option ℤ
  pub duration_ms : ℤ
  pub reboot_required : Bool
  pub signers : List Text
  pub baseline : Bool

-- NewRegistry
abbrev pub new_registry : Registry
new_registry = record {
  offset = 0;
  latest = none;
  last_error = [];
  passes = [];
  consecutive_failures = 0;
  revisions_refused = [];
  resources_refused = [];
  last_attempt = none;
  last_success = none;
  duration_ms = pos 0;
  reboot_required = false;
  signers = [];
  baseline = false;
}

-- counts[key]++
unfoldable pub increment : Text → Map Text ℕ → Map Text ℕ
unfolding get_or put
increment key counts = put key (get_or counts key 0 + 1) counts

-- SetOffset
unfoldable pub set_offset : ℕ → Registry → Registry
set_offset offset r = record r { offset = offset }

-- SetTrust
unfoldable pub set_trust : List Text → Bool → Registry → Registry
set_trust signers baseline r = record r { signers = signers; baseline = baseline }

abbrev pub failed_outcome : Text
failed_outcome = bytes "failed"

-- RecordPass
unfoldable pub registry_pass : Report → ℕ → Registry → Registry
unfolding increment
registry_pass rep failures r = record r {
  latest = some rep;
  last_error = rep.err;
  consecutive_failures = failures;
  last_attempt = some rep.started_at;
  duration_ms = rep.duration_ms;
  passes = increment rep.outcome r.passes;
  last_success =
      if not (rep.outcome == failed_outcome) then some rep.finished_at else r.last_success;
  reboot_required = rep.host_state == bytes "awaiting-reboot";
}

-- RecordAttempt
unfoldable pub registry_attempt : ℤ → Registry → Registry
registry_attempt at r = record r { last_attempt = some at }

-- RecordFailure
unfoldable pub registry_failure : Text → ℕ → Registry → Registry
unfolding increment
registry_failure reason failures r = record r {
  passes = increment failed_outcome r.passes;
  consecutive_failures = failures;
  last_error = reason;
}

-- RefuseRevision
unfoldable pub refuse_revision : Text → Registry → Registry
unfolding increment
refuse_revision reason r = record r { revisions_refused = increment reason r.revisions_refused }

-- RefuseResource
unfoldable pub refuse_resource : Text → Registry → Registry
unfolding increment
refuse_resource reason r = record r { resources_refused = increment reason r.resources_refused }
