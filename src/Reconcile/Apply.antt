-- ===== src/Reconcile/Apply.antt =====
-- internal/reconcile/reconcile.go: enforce and verify, for one step of a plan.
use datum.Prelude.{Bool, true, false, not, Option, none, some, List, [], ◌∷◌, if◌then◌else◌}
use datum.Map.{lookup}
use datum.Text.{Text}
use datum.State
use datum.State.{
  Action, skip, changes, pending, converged, drifted, failed, blocked, skipped, Host, host_from,
  Outcome, outcome_converged, outcome_changed, outcome_failed, outcome_drifted,
}
use datum.Document.Reference.{Reference, ref_eq}
use datum.Graph.{Graph, Node}
use datum.Provider.{
  no_trigger, Request, is_present, Observation, desired_or, observed, unreadable, Applied, applied,
  refused, overran, Provider, ProviderSet, provider_for,
}
use datum.Plan.{FieldDiff, correctable, uncorrectable, compare}
use datum.Plan.Build
use datum.Plan.Build.{Step}
use datum.Reconcile.Block.{Cause}

pub data Mode : Type 0 where
  enforcing observing : Mode

-- The errors that a resource can end with.
pub data Failure : Type 0 where
  not_read : Text → Failure
  no_provider : Text → Failure
  not_in_graph : Reference → Failure
  reaches_protected : Text → Failure
  action_refused : Text → Failure
  action_overran : Action → Failure
  verifying : Text → Failure
  still : Bool → Failure
  not_taken : List Text → Failure

pub data Reason : Type 0 where
  planned : Build.Reason → Reason
  because : Cause → Reason
  not_corrected : List Text → Reason

pub record Resource : Type 0 where
  pub ref : Reference
  pub provider : Text
  pub target : Text
  pub action : Action
  pub standing : State.Resource
  pub fields : List Text
  pub reason : Reason
  pub err : Option Failure

-- fieldNames
unfoldable pub field_names : List FieldDiff → List Text
field_names [] = []
field_names (d ∷ ds) = d.name ∷ field_names ds

-- Options. `identity_refusal` is Protected.CheckIdentity, which reads the host.
pub record Options (World : Type 0) : Type 0 where
  pub mode : Mode
  pub providers : ProviderSet World
  pub graph : Graph
  pub repo_root : Text
  pub identity_refusal : Reference → Text → World → Option Text

-- What enforce returns: the state, the reason if it is not empty, and the error.
pub record Verdict : Type 0 where
  pub standing : State.Resource
  pub reason : Option Reason
  pub err : Option Failure

abbrev pub failure : Failure → Verdict
failure err = record { standing = failed; reason = none; err = some err }

-- The end of verify, of the differences that Compare finds.
unfoldable pub judge_fields : List FieldDiff → Verdict
unfolding correctable uncorrectable field_names
judge_fields fields = elim (correctable fields) [
  | d ∷ ds ↦ record {
    standing = drifted;
    reason = none;
    err = some (not_taken (field_names (d ∷ ds)));
  }
  | [] ↦ elim (uncorrectable fields) [
    | d ∷ ds ↦ record {
      standing = drifted;
      reason = some (not_corrected (field_names (d ∷ ds)));
      err = none;
    }
    | [] ↦ record { standing = converged; reason = none; err = none }
  ]
]

-- req.Present() != observation.Exists
abbrev pub differ : Bool → Bool → Bool
differ true b = not b
differ false b = b

-- verify
unfoldable pub verify : Request → Observation → Verdict
unfolding is_present judge_fields compare desired_or
verify req o =
    if differ (is_present req) o.exists
    then record { standing = drifted; reason = none; err = some (still o.exists) }
    else if not o.exists
    then record { standing = converged; reason = none; err = none }
    else judge_fields (compare req.ref (desired_or o req.desired) o).fields

module _ {World : Type 0} where
  -- The second half of enforce: the target is read again, without the trigger.
  unfoldable pub read_back : Provider World → Request → World → Verdict
  unfolding verify
  read_back p req world =
      let verify_req : Request = record req { trigger = no_trigger } in
      elim (p.observe verify_req world) [
        | unreadable err ↦ failure (verifying err)
        | observed o ↦ verify verify_req o
      ]

  -- What follows from the result of the provider's Apply.
  unfoldable pub after_apply : Provider World → Request → Action → Applied → World → Verdict × World
  unfolding read_back
  after_apply p req action (refused err) world = (failure (action_refused err), world)
  after_apply p req action overran world = (failure (action_overran action), world)
  after_apply p req action applied world = (read_back p req world, world)

  unfoldable pub request_of : Options World → Step → Node → Request
  request_of opts step node = record {
    ref = step.ref;
    target = node.target;
    desired = node.resource.desired;
    layer_dir = node.resource.layer_dir;
    repo_root = opts.repo_root;
    trigger = step.trigger;
  }

  unfoldable pub enforce_with :
      Options World → Step → World → Provider World → Node → Verdict × World
  unfolding after_apply request_of
  enforce_with opts step world p node = elim (opts.identity_refusal step.ref node.target world) [
    | some err ↦ (failure (reaches_protected err), world)
    | none ↦
        let (result, world') = p.apply (request_of opts step node) step.action world in
        after_apply p (request_of opts step node) step.action result world'
  ]

  -- enforce
  unfoldable pub enforce : Options World → Step → World → Verdict × World
  unfolding enforce_with provider_for
  enforce opts step world = elim (provider_for opts.providers step.ref.type) [
    | none ↦ (failure (no_provider step.ref.type), world)
    | some p ↦ elim (lookup step.ref opts.graph.nodes) [
      | none ↦ (failure (not_in_graph step.ref), world)
      | some node ↦ enforce_with opts step world p node
    ]
  ]
