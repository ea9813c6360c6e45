-- ===== src/Graph/Build.antt =====
-- internal/graph/graph.go: BuildProtecting, findDuplicateTargets and buildEdges.
pub mod Edges
pub mod Complete
pub mod Targets
pub mod Admission
pub mod Valid
use datum.Prelude.{
  Eq, ◌==◌, ℕ, Bool, true, false, not, ◌&&◌, Option, none, some, List, [], ◌∷◌, ◌++◌, length,
  select, sort_by, ltb, if◌then◌else◌,
}
use datum.Map.{Map, lookup, has, get_or, put, keys}
use datum.Text.{Text, text_eq, text_lt, bytes}
use datum.Document.Reference.{Reference, ref_eq, ref_less, ref_string}
use datum.Document.Value.{Value}
use datum.Document.Identity.{target_identity}
use datum.Resolve.Manifest.{Resource}
use datum.Graph.{EdgeKind, requires, restart_on, reload_on, Edge, Node, Graph}
use datum.Graph.Sort.{Sorted, ordered, cyclic, out_of_fuel, sort}

-- What Build reports, one constructor for each of its messages.
pub data BuildError : Type 0 where
  no_identity : Reference → BuildError
  protected_target : Reference → BuildError
  duplicate_target : List Reference → Text → BuildError
  missing_dependency : Reference → EdgeKind → Reference → BuildError
  self_dependency : Reference → BuildError
  dependency_cycle : List Reference → BuildError

pub data Built : Type 0 where
  built : Graph → Built
  rejected : List BuildError → Built
  unfinished : Built

abbrev pub Nodes : Type 0
Nodes = Map Reference Node

-- `refuses` is protected.Check: whether a target is one of Datum's own controls.
module _ (refuses : Reference → Text → Value → Bool) where
  -- One round of the first loop of BuildProtecting.
  unfoldable pub add_node : Resource → Nodes × List BuildError → Nodes × List BuildError
  unfolding target_identity
  add_node resource (nodes, errs) =
      elim (target_identity resource.ref.type resource.ref.name resource.desired) [
        | none ↦ (nodes, errs ++ no_identity resource.ref ∷ [])
        | some target ↦
            if refuses resource.ref target resource.desired
            then (nodes, errs ++ protected_target resource.ref ∷ [])
            else (put resource.ref (record { resource = resource; target = target }) nodes, errs)
      ]

  unfoldable pub add_nodes : List Resource → Nodes × List BuildError → Nodes × List BuildError
  unfolding add_node
  add_nodes [] acc = acc
  add_nodes (resource ∷ rest) acc = add_nodes rest (add_node resource acc)

-- ref.Type + " " + node.Target
unfoldable pub target_key : Reference → Node → Text
target_key ref node = ref.type ++ bytes " " ++ node.target

-- byTarget
unfoldable pub by_target : Nodes → Map Text (List Reference) → Map Text (List Reference)
unfolding target_key
by_target [] groups = groups
by_target ((ref, node) ∷ nodes) groups =
    by_target nodes
      (put (target_key ref node) (get_or groups (target_key ref node) [] ++ ref ∷ []) groups)

-- The target of the first of the references, which Go reads from g.Nodes.
unfoldable pub target_of : Nodes → List Reference → Text
target_of nodes [] = []
target_of nodes (ref ∷ refs) = elim (lookup ref nodes) [ none ↦ [] | some node ↦ node.target ]

unfoldable pub report_duplicates : Nodes → Map Text (List Reference) → List Text → List BuildError
unfolding target_of
report_duplicates nodes groups [] = []
report_duplicates nodes groups (key ∷ rest) =
    let refs = sort_by ref_less (get_or groups key []) in
    duplicate_target refs (target_of nodes refs) ∷ report_duplicates nodes groups rest

-- findDuplicateTargets
unfoldable pub find_duplicate_targets : Nodes → List BuildError
unfolding by_target report_duplicates
find_duplicate_targets nodes =
    let groups = by_target nodes [] in
    let shared = select (λ (group : Text × List Reference). ltb 1 (length group.1)) groups in
    report_duplicates nodes groups (sort_by text_lt (keys shared))

-- The body of the innermost loop of buildEdges.
unfoldable pub add_edge :
    Nodes
    → Reference
    → EdgeKind
    → Reference
    → List Edge × List BuildError
    → List Edge × List BuildError
add_edge nodes ref kind dependency (edges, errs) =
    if not (has dependency nodes)
    then (edges, errs ++ missing_dependency ref kind dependency ∷ [])
    else if dependency == ref
    then (edges, errs ++ self_dependency ref ∷ [])
    else (edges ++ record { from = dependency; to = ref; kind = kind } ∷ [], errs)

unfoldable pub add_list :
    Nodes
    → Reference
    → EdgeKind
    → List Reference
    → List Edge × List BuildError
    → List Edge × List BuildError
unfolding add_edge
add_list nodes ref kind [] acc = acc
add_list nodes ref kind (dependency ∷ rest) acc =
    add_list nodes ref kind rest (add_edge nodes ref kind dependency acc)

unfoldable pub add_resource :
    Nodes → Resource → List Edge × List BuildError → List Edge × List BuildError
unfolding add_list
add_resource nodes resource acc =
    if not (has resource.ref nodes)
    then acc
    else add_list nodes resource.ref reload_on resource.reload_on (
        add_list nodes resource.ref restart_on resource.restart_on
          (add_list nodes resource.ref requires resource.requires acc))

unfoldable pub add_edges :
    Nodes → List Resource → List Edge × List BuildError → List Edge × List BuildError
unfolding add_resource
add_edges nodes [] acc = acc
add_edges nodes (resource ∷ rest) acc = add_edges nodes rest (add_resource nodes resource acc)

-- The `less` that buildEdges sorts by.
unfoldable pub edge_less : Edge → Edge → Bool
edge_less a b =
    if not (a.to == b.to)
    then text_lt (ref_string a.to) (ref_string b.to)
    else text_lt (ref_string a.from) (ref_string b.from)

-- buildEdges
unfoldable pub build_edges : Nodes → List Resource → List Edge × List BuildError
unfolding add_edges
build_edges nodes resources =
    let (edges, errs) = add_edges nodes resources ([], []) in (sort_by edge_less edges, errs)

-- The end of BuildProtecting: ordering waits until every reference resolves.
unfoldable pub order_graph : Nodes → List Edge → List BuildError → Built
order_graph nodes edges (err ∷ errs) = rejected (err ∷ errs)
order_graph nodes edges [] = elim (sort edges (keys nodes)) [
  | ordered order ↦ built (record { nodes = nodes; edges = edges; order = order })
  | cyclic path ↦ rejected (dependency_cycle path ∷ [])
  | out_of_fuel ↦ unfinished
]

-- BuildProtecting
unfoldable pub build : (Reference → Text → Value → Bool) → List Resource → Built
unfolding add_nodes find_duplicate_targets build_edges order_graph
build refuses resources =
    let (nodes, errs) = add_nodes refuses resources ([], []) in
    let (edges, missing) = build_edges nodes resources in
    order_graph nodes edges (errs ++ find_duplicate_targets nodes ++ missing)
