-- ===== src/Samples/Passes.antt =====
-- Plans and passes over the example graph, with a provider whose host is a number.
use datum.Prelude.{
  All, any, ◌≡◌, ◌≢◌, ◌↔◌, ◌⊎◌, refl, ℕ, suc, Bool, true, false, none, is_some, List, [], ◌∷◌, ◌++◌,
  all, ◌&&◌, sort_by, contains, arith,
}
use datum.Map.{has, lookup, put}
use datum.Text.{text_eq, text_beq, bytes}
use datum.State.{update, outcome_changed, outcome_converged}
use datum.Document.Reference.{Reference, ref_eq, ref_beq}
use datum.Graph.Sort.Cycle.{linked}
use datum.Provider.{desired_or, no_trigger, unreadable, applied, Provider, new_set}
use datum.Observe
use datum.Observe.{result_for, Result, no_observation}
use datum.Plan.{compare}
use datum.Plan.Build.{wanted, desired_at, Step, no_reason, build_plan, plan_one}
use datum.Plan.Build.Steps.{
  pulls, has_action, acts_on, skips, IsMet, build_plan-triggers, build_plan-idle,
}
use datum.Reconcile.Block.{Blocked, did_fail, block}
use datum.Reconcile.Apply.{Mode, enforcing, observing, Options, enforce}
use datum.Reconcile.Pass.{apply_step, act, apply_all, apply, outcome}
use datum.Reconcile.Downstream.{Downstream, direct, further, IsClosed, block-Downstream}
use datum.Reconcile.Modes.{is_quiet, apply-observing, outcome-converged}
use datum.Reconcile.Blocking.{last_error, after, apply_all-holds_back}
use datum.Samples.Data.{nginx, config, service, edges, graph}

-- A provider that counts its actions and then cannot read the host.
abbrev counter : Provider ℕ
counter = record {
  name = bytes "counter";
  types = bytes "Package" ∷ bytes "File" ∷ bytes "Service" ∷ [];
  observe = λ request world. unreadable (bytes "gone");
  apply = λ request action world. (applied, suc world);
}

abbrev options : Mode → Options ℕ
options mode = record {
  mode = mode;
  providers = new_set (counter ∷ []);
  graph = graph;
  repo_root = [];
  identity_refusal = λ ref target world. none;
}

abbrev step_of : Reference → Step
step_of ref = record {
  ref = ref;
  action = update;
  provider = bytes "counter";
  target = [];
  fields = [];
  reason = no_reason;
  err = none;
  triggers = [];
  trigger = no_trigger;
}

apply-observing_example :
    ((apply (options observing) (λ ref. false) (step_of nginx ∷ []) 7).2 ≡ 7)
    × ((apply (options observing) (λ ref. false) (step_of nginx ∷ []) 7).0.outcome
        ≢ outcome_changed)
apply-observing_example =
    apply-observing (options observing) (λ ref. false) (step_of nginx ∷ []) 7 refl

outcome-converged_example :
    (outcome [] true ≡ outcome_converged) ↔ ((all is_quiet [] ≡ true) × (true ≡ false))
outcome-converged_example = outcome-converged [] true

abbrev nothing : Blocked
nothing = []

nothing-IsClosed : IsClosed edges []
unfolding has
nothing-IsClosed a b h l = ground arith

block-Downstream_example :
    (has service (block edges nothing nginx (did_fail nginx)) ≡ true)
    ↔ ((has service nothing ≡ true) ⊎ Downstream edges nginx service)
block-Downstream_example =
    block-Downstream edges (did_fail nginx) nothing nginx service nothing-IsClosed

service-Downstream : Downstream edges nginx service
unfolding ref_beq text_beq linked
service-Downstream = further (direct {b = config} refl) refl

nginx-fails :
    is_some (last_error (after (options enforcing) (step_of nginx ∷ []) 7).resources) ≡ true
unfolding apply_all new_set text_beq lookup put ref_beq apply_step act enforce
nginx-fails = refl

-- The service is held back although only the package's failure is known.
apply_all-holds_back_example :
    (after (options enforcing) (step_of nginx ∷ step_of config ∷ step_of service ∷ []) 7).world
    ≡ (after (options enforcing) (step_of nginx ∷ step_of config ∷ []) 7).world
apply_all-holds_back_example =
    apply_all-holds_back (options enforcing) [] (step_of nginx) (step_of config ∷ [])
      (step_of service) 7 nginx-fails service-Downstream

abbrev result : Bool → Reference → Result
result there ref = record {
  ref = ref;
  provider = bytes "counter";
  observation = record no_observation { exists = there };
  skipped = false;
  reason = [];
  err = none;
}

-- The file does not exist; the package and the service are as declared.
abbrev seen : Observe.State
seen = record {
  results = result true nginx ∷ result false config ∷ result true service ∷ [];
  by_ref = (nginx, 0) ∷ (config, 1) ∷ (service, 2) ∷ [];
}

abbrev settled : Observe.State
settled = record seen {
  results = result true nginx ∷ result true config ∷ result true service ∷ [];
}

-- The package and the file are as declared, and the file's creation restarts the service.
abbrev earlier : List Step
earlier = plan_one graph seen [] nginx ∷ plan_one graph seen [] config ∷ []

abbrev restarted : Step
restarted = plan_one graph seen (config ∷ []) service

plan-restarted : build_plan graph seen ≡ earlier ++ restarted ∷ []
unfolding build_plan lookup ref_beq text_beq sort_by
plan-restarted = refl

not_skipped : skips config earlier ≡ false
unfolding plan_one lookup ref_beq text_beq sort_by
not_skipped = refl

build_plan-triggers_example :
    contains restarted.triggers config
    ≡ (pulls config restarted.ref graph.edges && acts_on config earlier)
build_plan-triggers_example =
    build_plan-triggers graph seen config earlier restarted [] plan-restarted not_skipped

settled-IsMet : All (IsMet graph settled) graph.order
unfolding lookup ref_beq text_beq sort_by result_for desired_at wanted compare desired_or
settled-IsMet = (
  (result true nginx, refl, refl, refl, refl, λ e. refl),
  (
    (result true config, refl, refl, refl, refl, λ e. refl),
    ((result true service, refl, refl, refl, refl, λ e. refl), tt),
  ),
)

build_plan-idle_example : any has_action (build_plan graph settled) ≡ false
build_plan-idle_example = build_plan-idle graph settled settled-IsMet
