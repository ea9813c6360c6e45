-- ===== src/Graph/Build/Valid.antt =====
-- internal/graph/graph.go: what a manifest that BuildProtecting accepts is like.
use datum.Prelude.{
  ◌≡◌, refl, sym, ap, ◌∙◌, Bool, true, some, List, [], ◌∷◌, ◌++◌, All, All-map, length, count,
  IsDistinct, SameCounts, ◌⊎◌, inl, inr, arith,
}
use datum.Map.{lookup, has, has-count, keys}
use datum.Text.{Text, text_eq}
use datum.Document.Reference.{Reference, ref_eq}
use datum.Document.Value.{Value}
use datum.Resolve.Manifest.{Resource}
use datum.Graph.{Edge, Node, Graph}
use datum.Graph.Sort.{ordered, sort}
use datum.Graph.Sort.Invariant.{IsOrdered, IsWithin}
use datum.Graph.Sort.Order.{sort-IsOrdered}
use datum.Graph.Sort.Cycle.{sort_total}
use datum.Graph.Build.{
  Nodes, BuildError, built, rejected, add_nodes, find_duplicate_targets, build_edges, order_graph,
  build, target_key,
}
use datum.Graph.Build.Edges.{IsProper, build_edges-IsProper}
use datum.Graph.Build.Complete.{IsLinked, build_edges_complete}
use datum.Graph.Build.Targets.{one_owner}
use datum.Graph.Build.Admission.{IsAdmitted, add_nodes-IsDistinct, add_nodes_complete}

order_graph-built :
    (nodes : Nodes) (edges : List Edge) (errs : List BuildError) (g : Graph)
    → order_graph nodes edges errs ≡ built g
    → (errs ≡ [])
      × (g.nodes ≡ nodes)
      × (g.edges ≡ edges)
      × (sort edges (keys nodes) ≡ ordered g.order)
unfolding order_graph
order_graph-built nodes edges (err ∷ errs) g h = cc
order_graph-built nodes edges [] g h = ground arith

order_graph_total :
    (nodes : Nodes) (edges : List Edge) (errs : List BuildError)
    → IsDistinct (keys nodes)
    → IsWithin (keys nodes) edges
    → ((g : Graph) × (order_graph nodes edges errs ≡ built g))
      ⊎ ((err : BuildError) × (more : List BuildError) × (order_graph nodes edges errs
            ≡ rejected (err ∷ more)))
unfolding order_graph
order_graph_total nodes edges (err ∷ errs) distinct within = inr (err, errs, refl)
order_graph_total nodes edges [] distinct within =
    elim (sort_total (keys nodes) edges distinct within) [
      | inl (order, e) ↦
          inl (record { nodes = nodes; edges = edges; order = order }, rw (e, order_graph))
      | inr (path, e, cycle) ↦ inr (BuildError.dependency_cycle path, [], rw (e, order_graph))
    ]

append-nil_iff {ℓ} : {A : Type ℓ} (xs ys : List A) → xs ++ ys ≡ [] → (xs ≡ []) × (ys ≡ [])
append-nil_iff [] ys h = (refl, h)
append-nil_iff (x ∷ xs) ys h = cc

-- Proper edges join nodes.
IsProper-IsWithin :
    (nodes : Nodes) (edges : List Edge) → All (IsProper nodes) edges → IsWithin (keys nodes) edges
IsProper-IsWithin nodes edges h =
    All-map
      (λ edge k. (
        ground (arith, has-count edge.from nodes, k.0),
        ground (arith, has-count edge.to nodes, k.1),
      ))
      edges h

module _ (refuses : Reference → Text → Value → Bool) (resources : List Resource) where
  abbrev all_nodes : Nodes
  all_nodes = (add_nodes refuses resources ([], [])).0

  abbrev all_edges : List Edge
  all_edges = (build_edges all_nodes resources).0

  nodes-IsDistinct : IsDistinct (keys all_nodes)
  nodes-IsDistinct =
      add_nodes-IsDistinct refuses resources ([], []) (λ a. unfold keys count in omega arith)

  edges-IsProper : All (IsProper all_nodes) all_edges
  edges-IsProper = build_edges-IsProper all_nodes resources

  -- What acceptance rests on.
  record Accepted (g : Graph) : Type 0 where
    nodes : g.nodes ≡ all_nodes
    edges : g.edges ≡ all_edges
    sorted : sort all_edges (keys all_nodes) ≡ ordered g.order
    admitted : (add_nodes refuses resources ([], [])).1 ≡ []
    unshared : find_duplicate_targets all_nodes ≡ []
    resolved : (build_edges all_nodes resources).1 ≡ []

  build-Accepted : (g : Graph) → build refuses resources ≡ built g → Accepted g
  unfolding build
  build-Accepted g h =
      let (none_at_all, same_nodes, same_edges, sorted) =
        order_graph-built all_nodes all_edges _ g h in
      let (earlier, resolved) = append-nil_iff _ _ none_at_all in
      let (admitted, unshared) = append-nil_iff _ _ earlier in
      record {
        nodes = same_nodes;
        edges = same_edges;
        sorted = sorted;
        admitted = admitted;
        unshared = unshared;
        resolved = resolved;
      }

-- The order of an accepted manifest holds each of its nodes once, and nothing else; each one stands
-- behind everything that it waits for; and every edge joins two different nodes.
pub build-IsOrdered :
    (refuses : Reference → Text → Value → Bool) (resources : List Resource) (g : Graph)
    → build refuses resources ≡ built g
    → IsDistinct g.order
      × SameCounts g.order (keys g.nodes)
      × IsOrdered g.edges [] g.order
      × All (IsProper g.nodes) g.edges
build-IsOrdered refuses resources g h =
    let a = build-Accepted refuses resources g h in
    let distinct = nodes-IsDistinct refuses resources in
    let proper = edges-IsProper refuses resources in
    let (same, sorted) =
      sort-IsOrdered _ _ g.order distinct (IsProper-IsWithin _ _ proper) a.sorted in
    (
      λ r. omega (arith, same r, distinct r),
      λ r. same r ∙ sym (ap (λ n. count r (keys n)) a.nodes),
      rw a.edges sorted,
      rw (a.edges, a.nodes) proper,
    )

-- In an accepted manifest a target belongs to one resource: two nodes of one type with the same
-- target are the same node.
pub build-one_owner :
    (refuses : Reference → Text → Value → Bool) (resources : List Resource) (g : Graph)
    (a b : Reference) (na nb : Node)
    → build refuses resources ≡ built g
    → lookup a g.nodes ≡ some na
    → lookup b g.nodes ≡ some nb
    → a.type ≡ b.type
    → na.target ≡ nb.target
    → a ≡ b
unfolding target_key
build-one_owner refuses resources g a b na nb h ha hb types targets =
    let acc = build-Accepted refuses resources g h in
    one_owner (all_nodes refuses resources) a b na nb acc.unshared
      (sym (ap (lookup a) acc.nodes) ∙ ha) (sym (ap (lookup b) acc.nodes) ∙ hb) (cc)

-- Nothing of an accepted manifest is dropped: each resource names a target that is not protected, is
-- a node, and has for every dependency that it declares, of each of the three kinds, an edge of that
-- kind.
pub build_complete :
    (refuses : Reference → Text → Value → Bool) (resources : List Resource) (g : Graph)
    → build refuses resources ≡ built g
    → All (λ r. IsAdmitted refuses r × (has r.ref g.nodes ≡ true)) resources
      × All (IsLinked g.edges) resources
build_complete refuses resources g h =
    let a = build-Accepted refuses resources g h in
    let admitted = add_nodes_complete refuses resources ([], []) (ap length a.admitted) in
    (
      rw a.nodes admitted,
      rw a.edges (
          build_edges_complete (all_nodes refuses resources) resources
            (All-map (λ r k. k.1) resources admitted) a.resolved),
    )

-- BuildProtecting always ends, with a graph or with at least one error.
pub build_total :
    (refuses : Reference → Text → Value → Bool) (resources : List Resource)
    → ((g : Graph) × (build refuses resources ≡ built g))
      ⊎ ((err : BuildError) × (errs : List BuildError) × (build refuses resources
            ≡ rejected (err ∷ errs)))
unfolding build
build_total refuses resources =
    order_graph_total (all_nodes refuses resources) (all_edges refuses resources) _
      (nodes-IsDistinct refuses resources)
      (IsProper-IsWithin _ _ (edges-IsProper refuses resources))
