-- ===== src/Observe.antt =====
-- internal/observe/observe.go: the observed state of a manifest.
use datum.Prelude.{
  ◌==◌, ℕ, zero, suc, Bool, true, false, Option, none, some, List, [], ◌∷◌, ◌++◌, length,
  if◌then◌else◌,
}
use datum.Map.{Map, lookup, put}
use datum.Text.{Text, text_eq, bytes}
use datum.Document.Reference.{Reference, ref_eq}
use datum.Document.Value.{plain}
use datum.Graph.{Graph, Node}
use datum.Provider.{
  no_trigger, Request, Observation, Observed, observed, unreadable, ProviderSet, provider_for,
}

pub record Result : Type 0 where
  pub ref : Reference
  pub provider : Text
  pub observation : Observation
  pub skipped : Bool
  pub reason : Text
  pub err : Option Text

pub record State : Type 0 where
  pub results : List Result
  pub by_ref : Map Reference ℕ

abbrev pub no_observation : Observation
no_observation = record {
  exists = false;
  found = [];
  fields = [];
  unobservable = [];
  uncorrectable = [];
  desired = plain [];
}

-- Result{}, with a reference
abbrev pub no_result : Reference → Result
no_result ref = record {
  ref = ref;
  provider = [];
  observation = no_observation;
  skipped = false;
  reason = [];
  err = none;
}

unfoldable pub result_at : List Result → ℕ → Option Result
result_at [] i = none
result_at (r ∷ rs) zero = some r
result_at (r ∷ rs) (suc i) = result_at rs i

-- State.For
unfoldable pub result_for : State → Reference → Option Result
unfolding result_at
result_for s ref = elim (lookup ref s.by_ref) [ none ↦ none | some i ↦ result_at s.results i ]

-- What a provider returned, as a result.
unfoldable pub record_observed : Result → Observed → Result
record_observed r (observed o) = record r { observation = o }
record_observed r (unreadable err) = record r { err = some err }

-- The request that Host makes; g.Nodes[ref] is the zero Node where the key is absent.
unfoldable pub observe_request : Text → Reference → Option Node → Request
observe_request repo_root ref none = record {
  ref = ref;
  target = [];
  desired = plain [];
  layer_dir = [];
  repo_root = repo_root;
  trigger = no_trigger;
}
observe_request repo_root ref (some node) = record {
  ref = ref;
  target = node.target;
  desired = node.resource.desired;
  layer_dir = node.resource.layer_dir;
  repo_root = repo_root;
  trigger = no_trigger;
}

module _ {World : Type 0} where
  -- skipReason
  unfoldable pub skip_reason : Text → ProviderSet World → Text
  skip_reason type_name providers =
      let generic = bytes "no " ++ (type_name ++ bytes " provider on this host") in
      let by_host =
        if providers.host == []
        then generic
        else bytes "no " ++ (type_name ++ (bytes " provider supports " ++ providers.host)) in
      elim (lookup type_name providers.unserved) [
        | none ↦ by_host
        | some reason ↦ if reason == [] then by_host else generic ++ (bytes ": " ++ reason)
      ]

  -- The body of the loop in Host.
  unfoldable pub observe_one :
      ProviderSet World → Text → World → Map Reference Node → Reference → Result
  unfolding skip_reason record_observed observe_request provider_for
  observe_one providers repo_root world nodes ref = elim (provider_for providers ref.type) [
    | none ↦ record (no_result ref) { skipped = true; reason = skip_reason ref.type providers }
    | some p ↦
        record_observed (record (no_result ref) { provider = p.name })
          (p.observe (observe_request repo_root ref (lookup ref nodes)) world)
  ]

  -- The loop of Host. A resource at which `stopped` holds ends it with the error of the context.
  unfoldable pub observe_all :
      ProviderSet World
      → Text
      → World
      → (Reference → Bool)
      → Map Reference Node
      → List Reference
      → State
      → State × Bool
  unfolding observe_one
  observe_all providers repo_root world stopped nodes [] s = (s, true)
  observe_all providers repo_root world stopped nodes (ref ∷ rest) s =
      let more = observe_all providers repo_root world stopped nodes rest (record {
        results = s.results ++ observe_one providers repo_root world nodes ref ∷ [];
        by_ref = put ref (length s.results) s.by_ref;
      }) in
      if stopped ref then (s, false) else more

  -- Host
  unfoldable pub observe_host :
      ProviderSet World → Text → World → (Reference → Bool) → Graph → State × Bool
  unfolding observe_all
  observe_host providers repo_root world stopped g =
      observe_all providers repo_root world stopped g.nodes g.order
        (record { results = []; by_ref = [] })
