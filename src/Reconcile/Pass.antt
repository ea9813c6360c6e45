-- ===== src/Reconcile/Pass.antt =====
-- internal/reconcile/reconcile.go: Apply and outcome.
use datum.Prelude.{
  Bool, true, false, not, Option, none, some, is_some, List, [], ◌∷◌, ◌++◌, if◌then◌else◌,
}
use datum.Map.{lookup}
use datum.State
use datum.State.{
  Action, skip, changes, pending, converged, drifted, failed, blocked, skipped, Host, host_from,
  Outcome, outcome_converged, outcome_changed, outcome_failed, outcome_drifted,
}
use datum.Document.Reference.{Reference, ref_eq}
use datum.Plan.Build.{Step}
use datum.Reconcile.Block.{Cause, could_not_be_read, did_not_verify, did_fail, Blocked, block}
use datum.Reconcile.Apply.{
  enforcing, observing, not_read, Reason, planned, because, Resource, field_names, Options, Verdict,
  enforce,
}

-- The variables of the loop in Apply, with the host.
pub record Pass (World : Type 0) : Type 0 where
  pub world : World
  pub blocked_by : Blocked
  pub acted : Bool
  pub resources : List Resource

-- The literal at the top of the loop's body.
unfoldable pub resource_of : Step → Resource
unfolding field_names
resource_of step = record {
  ref = step.ref;
  provider = step.provider;
  target = step.target;
  action = step.action;
  standing = pending;
  fields = field_names step.fields;
  reason = planned step.reason;
  err = none;
}

-- dependencyReason
unfoldable pub dependency_reason : Reference → State.Resource → Cause
dependency_reason ref drifted = did_not_verify ref
dependency_reason ref _ = did_fail ref

-- r.State != state.Converged && r.Err != nil
unfoldable pub must_block : Verdict → Bool
must_block v = elim v.standing [ converged ↦ false | _ ↦ is_some v.err ]

abbrev pub reason_or : Reason → Option Reason → Reason
reason_or given none = given
reason_or given (some reason) = reason

abbrev pub is_skip : Action → Bool
is_skip skip = true
is_skip _ = false

module _ {World : Type 0} where
  -- The default case of the switch in Apply.
  unfoldable pub act : Options World → Step → Pass World → Pass World
  unfolding resource_of dependency_reason must_block
  act opts step pass =
      let (v, world') = enforce opts step pass.world in
      record {
        world = world';
        blocked_by =
            if must_block v
            then block opts.graph.edges pass.blocked_by step.ref
                (dependency_reason step.ref v.standing)
            else pass.blocked_by;
        acted = true;
        resources =
            pass.resources
            ++ record (resource_of step) {
              standing = v.standing;
              reason = reason_or (planned step.reason) v.reason;
              err = v.err;
            }
              ∷ [];
      }

  -- A case of the switch that only sets the state of the resource.
  unfoldable pub settle : Step → State.Resource → Pass World → Pass World
  unfolding resource_of
  settle step standing pass = record pass {
    resources = pass.resources ++ record (resource_of step) { standing = standing } ∷ [];
  }

  -- A resource that could not be read.
  unfoldable pub fail_unread : Options World → Step → Pass World → Pass World
  unfolding resource_of
  fail_unread opts step pass = elim step.err [
    | none ↦ pass
    | some err ↦ record pass {
      blocked_by = block opts.graph.edges pass.blocked_by step.ref could_not_be_read;
      resources =
          pass.resources
          ++ record (resource_of step) { standing = failed; err = some (not_read err) } ∷ [];
    }
  ]

  unfoldable pub hold_back : Step → Cause → Pass World → Pass World
  unfolding resource_of
  hold_back step cause pass = record pass {
    resources =
        pass.resources
        ++ record (resource_of step) { standing = blocked; reason = because cause } ∷ [];
  }

  -- The last three cases of the switch.
  unfoldable pub apply_free : Options World → Step → Pass World → Pass World
  unfolding settle changes
  apply_free opts step pass =
      if not (changes step.action)
      then settle step converged pass
      else elim opts.mode [ observing ↦ settle step drifted pass | enforcing ↦ act opts step pass ]

  -- The switch in the loop of Apply.
  unfoldable pub apply_step : Options World → Step → Pass World → Pass World
  unfolding fail_unread settle hold_back apply_free
  apply_step opts step pass =
      if is_some step.err
      then fail_unread opts step pass
      else if is_skip step.action
      then settle step skipped pass
      else elim (lookup step.ref pass.blocked_by) [
        | some cause ↦ hold_back step cause pass
        | none ↦ apply_free opts step pass
      ]

  -- The loop of Apply. A step at which `stopped` holds ends it with the error of the context.
  unfoldable pub apply_all :
      Options World → (Reference → Bool) → List Step → Pass World → Pass World × Bool
  apply_all opts stopped [] pass = (pass, true)
  apply_all opts stopped (step ∷ steps) pass =
      let rest = apply_all opts stopped steps (apply_step opts step pass) in
      if stopped step.ref then (pass, false) else rest

  abbrev pub begin : World → Pass World
  begin world = record { world = world; blocked_by = []; acted = false; resources = [] }

-- The loop of outcome: the second component tells of drift without an error.
unfoldable pub scan : List Resource → Bool → Option Bool
scan [] drift = some drift
scan (r ∷ rs) drift =
    let rest = scan rs drift in
    let rest_drifted = scan rs true in
    elim r.standing [
      | failed ↦ none
      | blocked ↦ none
      | drifted ↦ if is_some r.err then none else rest_drifted
      | _ ↦ rest
    ]

-- outcome
unfoldable pub outcome : List Resource → Bool → Outcome
unfolding scan
outcome resources acted = elim (scan resources false) [
  | none ↦ outcome_failed
  | some true ↦ outcome_drifted
  | some false ↦ if acted then outcome_changed else outcome_converged
]

-- states
unfoldable pub states : List Resource → List State.Resource
states [] = []
states (r ∷ rs) = r.standing ∷ states rs

-- What Apply returns.
pub record Result : Type 0 where
  pub outcome : Outcome
  pub host_state : Host
  pub resources : List Resource

-- The end of Apply. Where the context ended the loop the first two fields keep their zero values.
unfoldable pub result_of : {World : Type 0} → Pass World → Bool → Result
unfolding states host_from
result_of pass true = record {
  outcome = outcome pass.resources pass.acted;
  host_state = host_from (states pass.resources);
  resources = pass.resources;
}
result_of pass false = record {
  outcome = outcome_converged;
  host_state = State.unknown;
  resources = pass.resources;
}

-- Apply: the result, whether the loop came to its end, and the host as it is then.
unfoldable pub apply :
    {World : Type 0}
    → Options World
    → (Reference → Bool)
    → List Step
    → World
    → Result × Bool × World
apply opts stopped steps world =
    let (pass, complete) = apply_all opts stopped steps (begin world) in
    (result_of pass complete, complete, pass.world)
