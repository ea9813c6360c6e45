-- ===== src/Plan/Build.antt =====
-- internal/plan/plan.go: from desired and observed state to an ordered set of actions.
pub mod Steps
use datum.Prelude.{
  Eq, ◌==◌, ℕ, zero, suc, ◌+◌, Bool, true, false, not, ◌&&◌, ◌||◌, Option, none, some, List, [],
  ◌∷◌, ◌++◌, contains, length, if◌then◌else◌, ltb,
}
use datum.Map.{Map, lookup, get_or, has, put}
use datum.Text.{Text, text_eq, bytes}
use datum.State.{Action, create, update, remove, skip, changes}
use datum.Document.Reference.{Reference, ref_eq}
use datum.Document.Value
use datum.Document.Value.{Value, plain, scalar_text}
use datum.Graph.{
  EdgeKind, requires, restart_on, reload_on, triggers, Edge, Node, Graph, dependencies,
}
use datum.Provider.{Trigger, no_trigger, restart, reload, desired_or}
use datum.Observe
use datum.Observe.{Result, no_result, result_for}
use datum.Plan.{FieldDiff, Diff, differs, compare}

-- The texts that Step.Reason takes.
pub data Reason : Type 0 where
  no_reason : Reason
  skipped_because : Text → Reason
  one_changed : Reference → EdgeKind → Reason
  many_changed : ℕ → EdgeKind → Reason

pub record Step : Type 0 where
  pub ref : Reference
  pub action : Action
  pub provider : Text
  pub target : Text
  pub fields : List FieldDiff
  pub reason : Reason
  pub err : Option Text
  pub triggers : List Reference
  pub trigger : Trigger

-- present
unfoldable pub wanted : Value → Bool
unfolding scalar_text Value.lookup
wanted desired = elim (Value.lookup (bytes "state") desired) [
  | none ↦ true
  | some v ↦ not (scalar_text v == bytes "absent")
]

-- decide
unfoldable pub decide : Value → Diff → Action × List FieldDiff
unfolding wanted
decide desired diff =
    if wanted desired && not diff.exists
    then (create, [])
    else if not (wanted desired) && diff.exists
    then (remove, [])
    else if not (wanted desired) && not diff.exists
    then (Action.none, [])
    else if differs diff.fields
    then (update, diff.fields)
    else (Action.none, [])

-- The result of the reading, and of the comparison in diffAll, for one resource. diffAll leaves the
-- resources out that were skipped or not read; Build does not ask for their diffs.
abbrev pub no_diff : Reference → Diff
no_diff ref = record { ref = ref; fields = []; exists = false; occupied = [] }

-- The round of diffAll for one result.
unfoldable pub diff_result : Value → Result → Diff
unfolding compare desired_or
diff_result desired r = compare r.ref (desired_or r.observation desired) r.observation

-- firedTriggers
unfoldable pub fired : List Reference → List Edge → List Reference
unfolding triggers contains
fired changed [] = []
fired changed (edge ∷ edges) =
    let rest = fired changed edges in
    if triggers edge.kind && contains changed edge.from then edge.from ∷ rest else rest

-- triggerOp
unfoldable pub trigger_op : List Edge → Trigger
trigger_op [] = no_trigger
trigger_op (edge ∷ edges) =
    let rest = trigger_op edges in
    elim edge.kind [ requires ↦ rest | restart_on ↦ restart | reload_on ↦ reload ]

-- The kind that triggerReason names.
unfoldable pub trigger_kind : List Edge → EdgeKind
unfolding triggers
trigger_kind [] = restart_on
trigger_kind (edge ∷ edges) =
    let rest = trigger_kind edges in if triggers edge.kind then edge.kind else rest

-- triggerReason
unfoldable pub trigger_reason : List Edge → List Reference → Reason
unfolding trigger_kind
trigger_reason edges (ref ∷ []) = one_changed ref (trigger_kind edges)
trigger_reason edges refs = many_changed (length refs) (trigger_kind edges)

-- result, _ := observed.For(ref)
abbrev pub result_or : Reference → Option Result → Result
result_or ref none = no_result ref
result_or ref (some r) = r

-- diffs[ref]
unfoldable pub diff_or : Value → Reference → Option Result → Diff
unfolding diff_result
diff_or desired ref none = no_diff ref
diff_or desired ref (some r) = diff_result desired r

-- The switch in the loop of Build.
unfoldable pub plan_own : Value → Reference → Text → Option Result → Step
unfolding decide diff_or
plan_own desired ref target found =
    let r = result_or ref found in
    let (action, fields) = decide desired (diff_or desired ref found) in
    let blank : Step = record {
      ref = ref;
      action = Action.none;
      provider = r.provider;
      target = target;
      fields = [];
      reason = no_reason;
      err = none;
      triggers = [];
      trigger = no_trigger;
    } in
    if r.skipped
    then record blank { action = skip; reason = skipped_because r.reason }
    else elim r.err [
      | some err ↦ record blank { err = some err }
      | none ↦ record blank { action = action; fields = fields }
    ]

-- A resource whose own state matches is updated where a dependency's change triggers it.
unfoldable pub pull : List Edge → Step → Step
unfolding trigger_reason
pull edges step = elim step.action [
  | Action.none ↦ record step { action = update; reason = trigger_reason edges step.triggers }
  | _ ↦ step
]

unfoldable pub plan_triggers : List Edge → List Reference → Step → Step
unfolding fired trigger_op pull
plan_triggers edges changed step = elim (fired changed edges) [
  | [] ↦ step
  | ref ∷ refs ↦ pull edges (record step { triggers = ref ∷ refs; trigger = trigger_op edges })
]

-- desired[ref] and targets[ref]
unfoldable pub desired_at : Graph → Reference → Value
desired_at g ref = elim (lookup ref g.nodes) [ none ↦ plain [] | some n ↦ n.resource.desired ]

unfoldable pub target_at : Graph → Reference → Text
target_at g ref = elim (lookup ref g.nodes) [ none ↦ [] | some n ↦ n.target ]

-- The body of the loop in Build.
unfoldable pub plan_one : Graph → Observe.State → List Reference → Reference → Step
unfolding plan_own plan_triggers desired_at target_at dependencies result_for
plan_one g seen changed ref =
    plan_triggers (dependencies ref g.edges) changed
      (plan_own (desired_at g ref) ref (target_at g ref) (result_for seen ref))

-- The loop of Build over the graph's order; `changed` holds the resources that the plan alters.
unfoldable pub plan_all : Graph → Observe.State → List Reference → List Reference → List Step
unfolding plan_one changes
plan_all g seen changed [] = []
plan_all g seen changed (ref ∷ rest) =
    let step = plan_one g seen changed ref in
    step ∷ plan_all g seen (if changes step.action then ref ∷ changed else changed) rest

-- Build, of its steps; Host, Revision and Manifest are copied from the manifest.
unfoldable pub build_plan : Graph → Observe.State → List Step
unfolding plan_all
build_plan g seen = plan_all g seen [] g.order

-- The method Changes of a plan
unfoldable pub plan_changes : List Step → Bool
unfolding changes
plan_changes [] = false
plan_changes (step ∷ steps) = changes step.action || plan_changes steps

pub record Counts : Type 0 where
  pub creates : ℕ
  pub updates : ℕ
  pub removes : ℕ
  pub skips : ℕ
  pub unchanged : ℕ
  pub failures : ℕ

-- The switch in the method Counts of a plan
unfoldable pub tally : Step → Counts → Counts
tally step c = elim step.err [
  | some err ↦ record c { failures = c.failures + 1 }
  | none ↦ elim step.action [
    | create ↦ record c { creates = c.creates + 1 }
    | update ↦ record c { updates = c.updates + 1 }
    | remove ↦ record c { removes = c.removes + 1 }
    | skip ↦ record c { skips = c.skips + 1 }
    | Action.none ↦ record c { unchanged = c.unchanged + 1 }
  ]
]

unfoldable pub tally_all : List Step → Counts → Counts
unfolding tally
tally_all [] c = c
tally_all (step ∷ steps) c = tally_all steps (tally step c)

-- The method Counts of a plan
unfoldable pub counts : List Step → Counts
unfolding tally_all
counts steps =
    tally_all steps
      (record { creates = 0; updates = 0; removes = 0; skips = 0; unchanged = 0; failures = 0 })
