-- ===== src/Graph.antt =====
-- internal/graph/graph.go: a manifest's resources, and the edges between them.
pub mod Sort
pub mod Build
use datum.Prelude.{Eq, ◌==◌, Bool, true, false, ◌||◌, not, List, [], ◌∷◌, select, if◌then◌else◌}
use datum.Map.{Map}
use datum.Text.{Text, text_lt}
use datum.Document.Reference.{Reference, ref_eq, ref_string}
use datum.Resolve.Manifest.{Resource}

pub data EdgeKind : Type 0 where
  requires restart_on reload_on : EdgeKind

-- EdgeKind.Triggers
unfoldable pub triggers : EdgeKind → Bool
triggers requires = false
triggers restart_on = true
triggers reload_on = true

pub record Edge : Type 0 where
  pub from : Reference
  pub to : Reference
  pub kind : EdgeKind

pub record Node : Type 0 where
  pub resource : Resource
  pub target : Text

pub record Graph : Type 0 where
  pub nodes : Map Reference Node
  pub edges : List Edge
  pub order : List Reference

-- Graph.Dependencies, of the graph's edges
unfoldable pub dependencies : Reference → List Edge → List Edge
dependencies ref = select (λ edge. edge.to == ref)

-- Graph.Dependents
unfoldable pub dependents : Reference → List Edge → List Edge
dependents ref = select (λ edge. edge.from == ref)
