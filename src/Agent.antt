-- ===== src/Agent.antt =====
-- internal/agent/agent.go: what one tick of the resident process records.
pub mod History
use datum.Prelude.{
  Eq, ◌==◌, ℕ, suc, ◌+◌, Bool, true, false, not, ◌&&◌, ◌||◌, Option, none, some, List, [], ◌∷◌,
  ◌++◌, if◌then◌else◌,
}
use datum.Prelude.Int.{ℤ}
use datum.Text.{Text, text_eq, bytes}
use datum.Schedule
use datum.Schedule.{Failure, upstream, local, Schedule, note_failure}
use datum.Metrics.{
  Report, Registry, new_registry, set_offset, registry_pass, registry_attempt, registry_failure,
}

-- Agent: the fields that a tick changes.
pub record Agent : Type 0 where
  pub schedule : Schedule
  pub registry : Registry
  pub consecutive_failures : ℕ

-- New, once the options and the state directory are checked: the registry that is served, with the
-- last report of the state directory, if there is one.
unfoldable pub new_agent :
    (hash : Text → ℕ) → Text → ℤ → ℤ → Option Registry → Option Report → Agent
unfolding Schedule.new set_offset registry_pass
new_agent hash host interval splay given latest =
    let schedule = Schedule.new hash host interval splay in
    let registry = set_offset schedule.offset (elim given [ none ↦ new_registry | some r ↦ r ]) in
    record {
      schedule = schedule;
      registry = elim latest [ none ↦ registry | some rep ↦ registry_pass rep 0 registry ];
      consecutive_failures = 0;
    }

-- The answers of lock.Acquire: the lock, ErrHeld, or another error with its text.
pub data Acquired : Type 0 where
  free held : Acquired
  broken : Text → Acquired

-- What a pass returns: a report, or the text of its error, each with the kind of failure.
pub data PassEnd : Type 0 where
  reported : Report → Failure → PassEnd
  errored : Text → Failure → PassEnd

-- What the outside gives to one tick: the lock, the time, the result of the pass, and whether the
-- agent's context and the pass's own have ended.
pub record Tick : Type 0 where
  pub lock : Acquired
  pub started_at : ℤ
  pub pass_end : PassEnd
  pub stopping : Bool
  pub timed_out : Bool
  pub timeout_text : Text

-- failure == schedule.None
abbrev pub is_none : Failure → Bool
is_none Failure.none = true
is_none upstream = false
is_none local = false

-- recordPass
unfoldable pub record_pass : Report → Failure → Agent → Agent
unfolding note_failure registry_pass
record_pass rep failure a =
    let failures : ℕ = if is_none failure then 0 else a.consecutive_failures + 1 in
    record a {
      consecutive_failures = failures;
      schedule = note_failure failure a.schedule;
      registry = registry_pass rep failures a.registry;
    }

-- The kind of failure that recordFailure records.
unfoldable pub effective_failure : Failure → Failure
effective_failure failure = if is_none failure then local else failure

-- recordFailure
unfoldable pub record_failure : Failure → Text → Agent → Agent
unfolding effective_failure note_failure registry_failure
record_failure failure reason a = record a {
  consecutive_failures = a.consecutive_failures + 1;
  schedule = note_failure (effective_failure failure) a.schedule;
  registry = registry_failure reason (a.consecutive_failures + 1) a.registry;
}

-- The switch of runOnce on the result of the pass.
unfoldable pub finish_pass : Tick → PassEnd → Agent → Agent
unfolding record_pass record_failure
finish_pass tick (reported rep failure) a = record_pass rep failure a
finish_pass tick (errored reason failure) a =
    if tick.stopping
    then a
    else if tick.timed_out
    then record_failure failure (bytes "the pass did not finish within " ++ tick.timeout_text) a
    else record_failure failure reason a

-- runOnce
unfoldable pub run_once : Tick → Agent → Agent
unfolding record_failure registry_attempt finish_pass
run_once tick a = elim tick.lock [
  | held ↦ a
  | broken reason ↦ record_failure local reason a
  | free ↦
      finish_pass tick tick.pass_end
        (record a { registry = registry_attempt tick.started_at a.registry })
]

-- The loop of Run, the latest tick first.
unfoldable pub run_ticks : List Tick → Agent → Agent
unfolding run_once
run_ticks [] a = a
run_ticks (tick ∷ earlier) a = run_once tick (run_ticks earlier a)
