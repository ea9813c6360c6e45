-- ===== src/Graph/Build/Complete.antt =====
-- internal/graph/graph.go: no declared dependency is lost on the way to the edges.
use datum.Prelude.{
  ◌==◌, ==_refl, ◌≡◌, refl, false, any, Bool, ◌≤◌, ap, ◌∙◌, true, ◌&&◌, List, [], ◌∷◌, All, All-map,
  any-append, any-sort_by, length, length-append, Bool-cases, inl, inr, arith, sort_by,
}
use datum.Map.{has}
use datum.Document.Reference.{Reference, ref_eq}
use datum.Resolve.Manifest.{Resource}
use datum.Graph.{EdgeKind, requires, restart_on, reload_on, Edge}
use datum.Graph.Build.{
  Nodes, BuildError, add_edge, add_list, add_resource, add_edges, edge_less, build_edges,
}

unfoldable pub same_kind : EdgeKind → EdgeKind → Bool
same_kind requires requires = true
same_kind restart_on restart_on = true
same_kind reload_on reload_on = true
same_kind _ _ = false

same_kind_refl : (kind : EdgeKind) → same_kind kind kind ≡ true
unfolding same_kind
same_kind_refl requires = refl
same_kind_refl restart_on = refl
same_kind_refl reload_on = refl

-- An edge of the kind leads from `a` to `b`.
unfoldable pub linked_by : EdgeKind → Reference → Reference → List Edge → Bool
unfolding same_kind
linked_by kind a b = any (λ edge. edge.from == a && edge.to == b && same_kind edge.kind kind)

abbrev Found : Type 0
Found = List Edge × List BuildError

-- The resource has edges from what it declares to wait for, each of the kind that it declares.
abbrev pub IsLinked : List Edge → Resource → Type 0
IsLinked edges r =
    All (λ d. linked_by requires d r.ref edges ≡ true) r.requires
    × All (λ d. linked_by restart_on d r.ref edges ≡ true) r.restart_on
    × All (λ d. linked_by reload_on d r.ref edges ≡ true) r.reload_on

module _ (nodes : Nodes) where
  -- Errors are only ever added.
  add_edge-errs :
      (ref : Reference) (kind : EdgeKind) (d : Reference) (acc : Found)
      → length acc.1 ≤ length (add_edge nodes ref kind d acc).1
  unfolding add_edge
  add_edge-errs ref kind d (edges, errs) = ground (
    arith,
    length-append errs (BuildError.missing_dependency ref kind d ∷ []),
    length-append errs (BuildError.self_dependency ref ∷ []),
  )

  add_list-errs :
      (ref : Reference) (kind : EdgeKind) (ds : List Reference) (acc : Found)
      → length acc.1 ≤ length (add_list nodes ref kind ds acc).1
  unfolding add_list
  add_list-errs ref kind [] acc = omega arith
  add_list-errs ref kind (d ∷ ds) acc = omega (
    arith,
    add_edge-errs ref kind d acc,
    add_list-errs ref kind ds (add_edge nodes ref kind d acc),
  )

  -- Edges are only ever added.
  add_edge-linked :
      (ref : Reference) (kind : EdgeKind) (d : Reference) (sort : EdgeKind) (a b : Reference)
      (acc : Found)
      → linked_by sort a b acc.0 ≡ true
      → linked_by sort a b (add_edge nodes ref kind d acc).0 ≡ true
  unfolding add_edge linked_by same_kind
  add_edge-linked ref kind d sort a b (edges, errs) h = ground (
    arith,
    any-append (λ (edge : Edge). edge.from == a && edge.to == b && same_kind edge.kind sort) edges
        (record { from = d; to = ref; kind = kind } ∷ []),
  )

  add_list-linked :
      (ref : Reference) (kind : EdgeKind) (ds : List Reference) (sort : EdgeKind) (a b : Reference)
      (acc : Found)
      → linked_by sort a b acc.0 ≡ true
      → linked_by sort a b (add_list nodes ref kind ds acc).0 ≡ true
  unfolding add_list
  add_list-linked ref kind [] sort a b acc h = h
  add_list-linked ref kind (d ∷ ds) sort a b acc h =
      add_list-linked ref kind ds sort a b _ (add_edge-linked ref kind d sort a b acc h)

  add_resource-linked :
      (r : Resource) (sort : EdgeKind) (a b : Reference) (acc : Found)
      → linked_by sort a b acc.0 ≡ true
      → linked_by sort a b (add_resource nodes r acc).0 ≡ true
  unfolding add_resource
  add_resource-linked r sort a b acc h = elim (Bool-cases (has r.ref nodes)) [
    | inr e ↦ rw e h
    | inl e ↦ rw e (
        add_list-linked r.ref reload_on r.reload_on sort a b _ (
          add_list-linked r.ref restart_on r.restart_on sort a b _
            (add_list-linked r.ref requires r.requires sort a b acc h)))
  ]

  add_edges-linked :
      (rs : List Resource) (sort : EdgeKind) (a b : Reference) (acc : Found)
      → linked_by sort a b acc.0 ≡ true
      → linked_by sort a b (add_edges nodes rs acc).0 ≡ true
  unfolding add_edges
  add_edges-linked [] sort a b acc h = h
  add_edges-linked (r ∷ rs) sort a b acc h =
      add_edges-linked rs sort a b _ (add_resource-linked r sort a b acc h)

  add_edge_complete :
      (ref : Reference) (kind : EdgeKind) (d : Reference) (acc : Found)
      → length (add_edge nodes ref kind d acc).1 ≡ 0
      → linked_by kind d ref (add_edge nodes ref kind d acc).0 ≡ true
  unfolding add_edge linked_by same_kind
  add_edge_complete ref kind d (edges, errs) h = ground (
    arith,
    length-append errs (BuildError.missing_dependency ref kind d ∷ []),
    length-append errs (BuildError.self_dependency ref ∷ []),
    ==_refl d,
    ==_refl ref,
    same_kind_refl kind,
    any-append (λ (edge : Edge). edge.from == d && edge.to == ref && same_kind edge.kind kind) edges
        (record { from = d; to = ref; kind = kind } ∷ []),
  )

  add_list_complete :
      (ref : Reference) (kind : EdgeKind) (ds : List Reference) (acc : Found)
      → length (add_list nodes ref kind ds acc).1 ≡ 0
      → All (λ d. linked_by kind d ref (add_list nodes ref kind ds acc).0 ≡ true) ds
  unfolding add_list
  add_list_complete ref kind [] acc h = tt
  add_list_complete ref kind (d ∷ ds) acc h =
      let acc' = add_edge nodes ref kind d acc in
      (
        add_list-linked ref kind ds kind d ref acc'
            (add_edge_complete ref kind d acc (omega (arith, add_list-errs ref kind ds acc', h))),
        add_list_complete ref kind ds acc' h,
      )

  add_resource_complete :
      (r : Resource) (acc : Found)
      → has r.ref nodes ≡ true
      → length (add_resource nodes r acc).1 ≡ 0
      → IsLinked (add_resource nodes r acc).0 r
  unfolding add_resource
  add_resource_complete r acc known =
      let one = add_list nodes r.ref requires r.requires acc in
      let two = add_list nodes r.ref restart_on r.restart_on one in
      rw known λ h. (
        All-map
            (λ d k.
              add_list-linked r.ref reload_on r.reload_on requires d r.ref two
                (add_list-linked r.ref restart_on r.restart_on requires d r.ref one k))
            r.requires
            (add_list_complete r.ref requires r.requires acc (
              omega (
                arith,
                add_list-errs r.ref restart_on r.restart_on one,
                add_list-errs r.ref reload_on r.reload_on two,
                h,
              ))),
        All-map (λ d k. add_list-linked r.ref reload_on r.reload_on restart_on d r.ref two k)
            r.restart_on
            (add_list_complete r.ref restart_on r.restart_on one
              (omega (arith, add_list-errs r.ref reload_on r.reload_on two, h))),
        add_list_complete r.ref reload_on r.reload_on two h,
      )

  add_resource-errs :
      (r : Resource) (acc : Found) → length acc.1 ≤ length (add_resource nodes r acc).1
  unfolding add_resource
  add_resource-errs r acc =
      let one = add_list nodes r.ref requires r.requires acc in
      let two = add_list nodes r.ref restart_on r.restart_on one in
      ground (
        arith,
        add_list-errs r.ref requires r.requires acc,
        add_list-errs r.ref restart_on r.restart_on one,
        add_list-errs r.ref reload_on r.reload_on two,
      )

  add_edges-errs :
      (rs : List Resource) (acc : Found) → length acc.1 ≤ length (add_edges nodes rs acc).1
  unfolding add_edges
  add_edges-errs [] acc = omega arith
  add_edges-errs (r ∷ rs) acc =
      omega (arith, add_resource-errs r acc, add_edges-errs rs (add_resource nodes r acc))

  IsLinked-later :
      (rs : List Resource) (r : Resource) (acc : Found)
      → IsLinked acc.0 r
      → IsLinked (add_edges nodes rs acc).0 r
  IsLinked-later rs r acc h = (
    All-map (λ d k. add_edges-linked rs requires d r.ref acc k) r.requires h.0,
    All-map (λ d k. add_edges-linked rs restart_on d r.ref acc k) r.restart_on h.1,
    All-map (λ d k. add_edges-linked rs reload_on d r.ref acc k) r.reload_on h.2,
  )

  add_edges_complete :
      (rs : List Resource) (acc : Found)
      → All (λ r. has r.ref nodes ≡ true) rs
      → length (add_edges nodes rs acc).1 ≡ 0
      → All (IsLinked (add_edges nodes rs acc).0) rs
  unfolding add_edges
  add_edges_complete [] acc known h = tt
  add_edges_complete (r ∷ rs) acc known h =
      let acc' = add_resource nodes r acc in
      (
        IsLinked-later rs r acc'
            (add_resource_complete r acc known.0 (omega (arith, add_edges-errs rs acc', h))),
        add_edges_complete rs acc' known.1 h,
      )

  -- Sorting the edges loses none.
  IsLinked-sorted :
      (edges : List Edge) (r : Resource) → IsLinked edges r → IsLinked (sort_by edge_less edges) r
  unfolding linked_by same_kind
  IsLinked-sorted edges r h = (
    All-map (λ d k. any-sort_by edge_less _ edges ∙ k) r.requires h.0,
    All-map (λ d k. any-sort_by edge_less _ edges ∙ k) r.restart_on h.1,
    All-map (λ d k. any-sort_by edge_less _ edges ∙ k) r.reload_on h.2,
  )

  -- Without an error, everything that a resource of the manifest waits for has its edge.
  pub build_edges_complete :
      (rs : List Resource)
      → All (λ r. has r.ref nodes ≡ true) rs
      → (build_edges nodes rs).1 ≡ []
      → All (IsLinked (build_edges nodes rs).0) rs
  unfolding build_edges
  build_edges_complete rs known h =
      All-map (IsLinked-sorted (add_edges nodes rs ([], [])).0) rs
        (add_edges_complete rs ([], []) known (ap length h))
