-- ===== src/Agent/History.antt =====
-- internal/agent/agent.go with internal/schedule/schedule.go: the counters against the history.
use Prim.Native.Nat.{min}
use datum.Prelude.{
  ℕ, suc, ◌^◌, ◌≡◌, refl, ap, ◌∙◌, inl, inr, Bool, true, false, Bool-cases, Option, none, some,
  List, [], ◌∷◌, eqb, arith,
}
use datum.Prelude.Int.{ℤ}
use datum.Text.{Text}
use datum.Schedule.Backoff.{note_failure-upstream, backoff-multiplier, multiplier-streak}
use datum.Schedule
use datum.Schedule.{Failure, upstream, local, Schedule, note_failure, backoff, max_backoff}
use datum.Metrics.{Report, Registry, registry_pass, registry_attempt, registry_failure, set_offset}
use datum.Agent.{
  Agent, Acquired, free, held, broken, PassEnd, reported, errored, Tick, record_pass,
  effective_failure, record_failure, finish_pass, run_once, run_ticks, new_agent,
}

-- How a tick ended: without a pass that counts, with success, or with a kind of failure.
pub data TickVerdict : Type 0 where
  no_pass success : TickVerdict
  upstream_failure local_failure : TickVerdict

abbrev pub verdict_of_failure : Failure → TickVerdict
verdict_of_failure Failure.none = success
verdict_of_failure upstream = upstream_failure
verdict_of_failure local = local_failure

-- An error is a failure of the host unless the pass says that it is the remote's.
abbrev pub verdict_of_error : Failure → TickVerdict
verdict_of_error upstream = upstream_failure
verdict_of_error _ = local_failure

abbrev pub verdict_of_pass : Bool → PassEnd → TickVerdict
verdict_of_pass stopping (reported rep failure) = verdict_of_failure failure
verdict_of_pass true (errored reason failure) = no_pass
verdict_of_pass false (errored reason failure) = verdict_of_error failure

unfoldable pub verdict : Tick → TickVerdict
verdict tick = elim tick.lock [
  | held ↦ no_pass
  | broken reason ↦ local_failure
  | free ↦ verdict_of_pass tick.stopping tick.pass_end
]

-- The failures since the last success, from the latest tick back.
abbrev pub streak_step : TickVerdict → ℕ → ℕ
streak_step no_pass n = n
streak_step success n = 0
streak_step upstream_failure n = suc n
streak_step local_failure n = suc n

unfoldable pub streak : List TickVerdict → ℕ
streak [] = 0
streak (v ∷ vs) = streak_step v (streak vs)

-- The failures of the remote since the last pass that ended otherwise.
abbrev pub upstream_step : TickVerdict → ℕ → ℕ
upstream_step no_pass k = k
upstream_step success k = 0
upstream_step upstream_failure k = suc k
upstream_step local_failure k = 0

unfoldable pub upstream_streak : List TickVerdict → ℕ
upstream_streak [] = 0
upstream_streak (v ∷ vs) = upstream_step v (upstream_streak vs)

abbrev pub verdicts : List Tick → List TickVerdict
verdicts [] = []
verdicts (tick ∷ ticks) = verdict tick ∷ verdicts ticks

note_failure-suc :
    (s : Schedule) (k : ℕ)
    → s.upstream_failures ≡ min k 3
    → (note_failure upstream s).upstream_failures ≡ min (suc k) 3
note_failure-suc s k h = note_failure-upstream s k h ∙ ap (λ (n : ℕ). min n 3) (omega arith)

-- The counters of an agent against two lengths.
record Counted (a : Agent) (failures upstreams : ℕ) : Type 0 where
  own : a.consecutive_failures ≡ failures
  shown : a.registry.consecutive_failures ≡ failures
  remote : a.schedule.upstream_failures ≡ min upstreams 3

record_pass-Counted :
    (rep : Report) (failure : Failure) (a : Agent) (n k : ℕ)
    → Counted a n k
    → Counted
        (record_pass rep failure a)
        (streak_step (verdict_of_failure failure) n)
        (upstream_step (verdict_of_failure failure) k)
unfolding record_pass note_failure registry_pass
record_pass-Counted rep Failure.none a n k inv = record {
  own = refl;
  shown = refl;
  remote = omega arith;
}
record_pass-Counted rep upstream a n k inv = record {
  own = omega (arith, inv.own);
  shown = omega (arith, inv.own);
  remote = note_failure-suc a.schedule k inv.remote;
}
record_pass-Counted rep local a n k inv = record {
  own = omega (arith, inv.own);
  shown = omega (arith, inv.own);
  remote = omega arith;
}

record_failure-Counted :
    (failure : Failure) (reason : Text) (a : Agent) (n k : ℕ)
    → Counted a n k
    → Counted
        (record_failure failure reason a)
        (streak_step (verdict_of_error failure) n)
        (upstream_step (verdict_of_error failure) k)
unfolding record_failure effective_failure note_failure registry_failure
record_failure-Counted Failure.none reason a n k inv = record {
  own = omega (arith, inv.own);
  shown = omega (arith, inv.own);
  remote = omega arith;
}
record_failure-Counted upstream reason a n k inv = record {
  own = omega (arith, inv.own);
  shown = omega (arith, inv.own);
  remote = note_failure-suc a.schedule k inv.remote;
}
record_failure-Counted local reason a n k inv = record {
  own = omega (arith, inv.own);
  shown = omega (arith, inv.own);
  remote = omega arith;
}

finish_pass-Counted :
    (tick : Tick) (end : PassEnd) (a : Agent) (n k : ℕ)
    → Counted a n k
    → Counted
        (finish_pass tick end a)
        (streak_step (verdict_of_pass tick.stopping end) n)
        (upstream_step (verdict_of_pass tick.stopping end) k)
unfolding finish_pass
finish_pass-Counted tick (reported rep failure) a n k inv =
    record_pass-Counted rep failure a n k inv
finish_pass-Counted tick (errored reason failure) a n k inv = elim (Bool-cases tick.stopping) [
  | inl e ↦ rw (e, finish_pass) inv
  | inr e ↦ elim (Bool-cases tick.timed_out) [
    | inl late ↦ rw (e, late, finish_pass) (record_failure-Counted failure _ a n k inv)
    | inr in_time ↦ rw (e, in_time, finish_pass) (record_failure-Counted failure reason a n k inv)
  ]
]

run_once-Counted :
    (tick : Tick) (a : Agent) (n k : ℕ)
    → Counted a n k
    → Counted (run_once tick a) (streak_step (verdict tick) n) (upstream_step (verdict tick) k)
unfolding run_once verdict registry_attempt
run_once-Counted tick a n k inv = at tick.lock refl
  where
    at :
        (l : Acquired)
        → tick.lock ≡ l
        → Counted (run_once tick a) (streak_step (verdict tick) n) (upstream_step (verdict tick) k)
    at held e = rw (e, run_once, verdict) inv
    at (broken reason) e = rw (e, run_once, verdict) (record_failure-Counted local reason a n k inv)
    at free e =
        rw (e, run_once, verdict)
          (finish_pass-Counted tick tick.pass_end
            (record a { registry = registry_attempt tick.started_at a.registry }) n k
            (record { own = inv.own; shown = inv.shown; remote = inv.remote }))

run_ticks-Counted :
    (ticks : List Tick) (a : Agent)
    → Counted a 0 0
    → Counted (run_ticks ticks a) (streak (verdicts ticks)) (upstream_streak (verdicts ticks))
unfolding run_ticks streak upstream_streak
run_ticks-Counted [] a inv = inv
run_ticks-Counted (tick ∷ ticks) a inv =
    run_once-Counted tick (run_ticks ticks a) (streak (verdicts ticks))
      (upstream_streak (verdicts ticks)) (run_ticks-Counted ticks a inv)

-- A registry that is given shows no failures.
abbrev pub shows_none : Option Registry → Bool
shows_none none = true
shows_none (some r) = eqb r.consecutive_failures 0

new_agent-Counted :
    (hash : Text → ℕ) (host : Text) (interval splay : ℤ) (given : Option Registry)
    (latest : Option Report)
    → shows_none given ≡ true
    → Counted (new_agent hash host interval splay given latest) 0 0
unfolding new_agent Schedule.new set_offset registry_pass
new_agent-Counted hash host interval splay none none h = record {
  own = refl;
  shown = refl;
  remote = omega arith;
}
new_agent-Counted hash host interval splay none (some rep) h = record {
  own = refl;
  shown = refl;
  remote = omega arith;
}
new_agent-Counted hash host interval splay (some r) none h = record {
  own = refl;
  shown = ground arith;
  remote = omega arith;
}
new_agent-Counted hash host interval splay (some r) (some rep) h = record {
  own = refl;
  shown = refl;
  remote = omega arith;
}

-- After any ticks of a new agent, the latest first, its count of consecutive failures is that of
-- the failures since the last success, the registry shows the same count, and the interval is
-- multiplied by two for each of the latest failures of the remote in a row, up to eight. Ticks that
-- found the lock held and passes that the end of the agent cut off count as nothing. A registry
-- that is given shows no failures yet.
pub run_ticks-streak :
    (hash : Text → ℕ) (host : Text) (interval splay : ℤ) (given : Option Registry)
    (latest : Option Report) (ticks : List Tick)
    → shows_none given ≡ true
    → ((run_ticks ticks (new_agent hash host interval splay given latest)).consecutive_failures
        ≡ streak (verdicts ticks))
      × ((run_ticks ticks
            (new_agent hash host interval splay given latest)).registry.consecutive_failures
          ≡ streak (verdicts ticks))
      × (backoff (run_ticks ticks (new_agent hash host interval splay given latest)).schedule
          ≡ min (2 ^ upstream_streak (verdicts ticks)) 8)
run_ticks-streak hash host interval splay given latest ticks fresh =
    let start = new_agent hash host interval splay given latest in
    let inv =
      run_ticks-Counted ticks start
        (new_agent-Counted hash host interval splay given latest fresh) in
    (
      inv.own,
      inv.shown,
      backoff-multiplier _ _ inv.remote ∙ multiplier-streak (upstream_streak (verdicts ticks)),
    )
