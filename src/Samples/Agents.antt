-- ===== src/Samples/Agents.antt =====
-- A revision that is recorded, and an agent that runs a few ticks.
use Prim.Native.Nat.{min}
use datum.Prelude.{◌^◌, ◌≡◌, refl, not, true, false, none, is_some, List, [], ◌∷◌, if◌then◌else◌}
use datum.Prelude.Int.{pos}
use datum.Text.{Text, bytes}
use datum.Revision.{missing, Attempts, accepted, read, advance}
use datum.Revision.RoundTrip.{records, read-advance}
use datum.Schedule.{Failure, upstream, local, backoff}
use datum.Agent.{Agent, Acquired, free, held, errored, Tick, new_agent, run_ticks}
use datum.Agent.History.{verdicts, streak, upstream_streak, run_ticks-streak}

abbrev revision : Text
revision = bytes "0123456789abcdef0123456789abcdef01234567"

abbrev all_well : Attempts
all_well = record { ensured = true; written = true; renamed = true }

read-advance_example :
    (is_some (advance all_well revision missing).0 ≡ not (records all_well revision))
    × (read (advance all_well revision missing).1
        ≡ (if records all_well revision then accepted revision else read missing))
read-advance_example = read-advance all_well revision missing

abbrev tick : Acquired → Failure → Tick
tick lock failure = record {
  lock = lock;
  started_at = pos 0;
  pass_end = errored (bytes "no route") failure;
  stopping = false;
  timed_out = false;
  timeout_text = bytes "15m";
}

-- The latest first: two failures of the remote with a held lock between them, after one of the host.
abbrev ticks : List Tick
ticks = tick free upstream ∷ tick held upstream ∷ tick free upstream ∷ tick free local ∷ []

abbrev agent : Agent
agent = run_ticks ticks (new_agent (λ host. 7) (bytes "web1") (pos 1800000000000) (pos 0) none none)

run_ticks-streak_example :
    (agent.consecutive_failures ≡ streak (verdicts ticks))
    × (agent.registry.consecutive_failures ≡ streak (verdicts ticks))
    × (backoff agent.schedule ≡ min (2 ^ upstream_streak (verdicts ticks)) 8)
run_ticks-streak_example =
    run_ticks-streak (λ host. 7) (bytes "web1") (pos 1800000000000) (pos 0) none none ticks refl
