-- ===== src/Samples/Installs.antt =====
-- A package that its provider installs; the host is whether it is there.
use datum.Prelude.{◌≡◌, refl, Bool, true, false, none, some, sort_by, [], ◌∷◌}
use datum.Map.{lookup, put}
use datum.Text.{text_eq, text_beq, text_lt, bytes}
use datum.State.{create, converged}
use datum.Document.Reference.{ref_eq, ref_beq}
use datum.Graph.{Node}
use datum.Observe.{no_observation}
use datum.Provider.{no_trigger, observed, applied, Provider, new_set, provider_for}
use datum.Plan.Build.{Step, no_reason}
use datum.Reconcile.Apply.{enforcing, Options, enforce}
use datum.Reconcile.Verified.{IsCarriedOut, enforce-converged}
use datum.Samples.Data.{nginx, graph}

abbrev installer : Provider Bool
installer = record {
  name = bytes "installer";
  types = bytes "Package" ∷ [];
  observe = λ request there. observed (record no_observation { exists = there });
  apply = λ request action there. (applied, true);
}

abbrev options : Options Bool
options = record {
  mode = enforcing;
  providers = new_set (installer ∷ []);
  graph = graph;
  repo_root = [];
  identity_refusal = λ ref target there. none;
}

abbrev install : Step
install = record {
  ref = nginx;
  action = create;
  provider = bytes "installer";
  target = bytes "nginx";
  fields = [];
  reason = no_reason;
  err = none;
  triggers = [];
  trigger = no_trigger;
}

installed : (enforce options install false).0.standing ≡ converged
unfolding enforce new_set text_beq lookup put ref_beq sort_by text_lt
installed = refl

enforce-converged_example :
    (p : Provider Bool) × (node : Node) × (provider_for options.providers nginx.type ≡ some p)
    × (lookup nginx options.graph.nodes ≡ some node)
    × IsCarriedOut options install false (enforce options install false).1 p node
enforce-converged_example = enforce-converged options install false installed
