-- ===== src/Graph/Build/Edges.antt =====
-- internal/graph/graph.go: what the edges of buildEdges join, and that no declared dependency is lost.
use datum.Prelude.{
  ◌==◌, ◌≡◌, true, false, List, [], ◌∷◌, All, All-append, All-sort_by, Bool-cases, inl, inr,
}
use datum.Map.{has}
use datum.Document.Reference.{Reference, ref_eq}
use datum.Resolve.Manifest.{Resource}
use datum.Graph.{EdgeKind, requires, restart_on, reload_on, Edge}
use datum.Graph.Build.{
  Nodes, BuildError, add_edge, add_list, add_resource, add_edges, edge_less, build_edges,
}

abbrev Found : Type 0
Found = List Edge × List BuildError

-- Both ends are nodes, and they differ.
abbrev pub IsProper : Nodes → Edge → Type 0
IsProper nodes edge =
    (has edge.from nodes ≡ true) × (has edge.to nodes ≡ true) × ((edge.from == edge.to) ≡ false)

module _ (nodes : Nodes) where
  add_edge-IsProper :
      (ref : Reference) (kind : EdgeKind) (d : Reference) (edges : List Edge)
      (errs : List BuildError)
      → has ref nodes ≡ true
      → All (IsProper nodes) edges
      → All (IsProper nodes) (add_edge nodes ref kind d (edges, errs)).0
  unfolding add_edge
  add_edge-IsProper ref kind d edges errs known h = elim (Bool-cases (has d nodes)) [
    | inr e ↦ rw e h
    | inl e ↦ elim (Bool-cases (d == ref)) [
      | inl same ↦ rw (e, same) h
      | inr other ↦ rw (e, other) (All-append (IsProper nodes) edges _ h ((e, known, other), tt))
    ]
  ]

  add_list-IsProper :
      (ref : Reference) (kind : EdgeKind) (ds : List Reference) (acc : Found)
      → has ref nodes ≡ true
      → All (IsProper nodes) acc.0
      → All (IsProper nodes) (add_list nodes ref kind ds acc).0
  unfolding add_list
  add_list-IsProper ref kind [] acc known h = h
  add_list-IsProper ref kind (d ∷ ds) (edges, errs) known h =
      add_list-IsProper ref kind ds _ known (add_edge-IsProper ref kind d edges errs known h)

  add_resource-IsProper :
      (r : Resource) (acc : Found)
      → All (IsProper nodes) acc.0
      → All (IsProper nodes) (add_resource nodes r acc).0
  unfolding add_resource
  add_resource-IsProper r acc h = elim (Bool-cases (has r.ref nodes)) [
    | inr e ↦ rw e h
    | inl e ↦ rw e (
        add_list-IsProper r.ref reload_on r.reload_on _ e (
          add_list-IsProper r.ref restart_on r.restart_on _ e
            (add_list-IsProper r.ref requires r.requires acc e h)))
  ]

  add_edges-IsProper :
      (rs : List Resource) (acc : Found)
      → All (IsProper nodes) acc.0
      → All (IsProper nodes) (add_edges nodes rs acc).0
  unfolding add_edges
  add_edges-IsProper [] acc h = h
  add_edges-IsProper (r ∷ rs) acc h = add_edges-IsProper rs _ (add_resource-IsProper r acc h)

  -- Every edge joins two different resources of the manifest.
  pub build_edges-IsProper : (rs : List Resource) → All (IsProper nodes) (build_edges nodes rs).0
  unfolding build_edges
  build_edges-IsProper rs =
      All-sort_by edge_less (IsProper nodes) _ (add_edges-IsProper rs ([], []) tt)
