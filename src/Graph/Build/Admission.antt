-- ===== src/Graph/Build/Admission.antt =====
-- internal/graph/graph.go: which resources become nodes.
use datum.Prelude.{
  ==_refl, suc, ◌≡◌, ◌≤◌, refl, Bool, true, false, Option, none, some, List, [], ◌∷◌, All, length,
  length-append, IsDistinct, Bool-cases, ◌⊎◌, inl, inr, arith,
}
use datum.Map.{has, has-put, keys, keys-put-IsDistinct}
use datum.Text.{Text, text_eq}
use datum.Document.Reference.{Reference, ref_eq}
use datum.Document.Value.{Value}
use datum.Document.Identity.{target_identity}
use datum.Resolve.Manifest.{Resource}
use datum.Graph.Build.{Nodes, BuildError, no_identity, protected_target, add_node, add_nodes}

abbrev Collected : Type 0
Collected = Nodes × List BuildError

module _ (refuses : Reference → Text → Value → Bool) where
  -- A resource that the manifest may manage: it names its target, and the target is not protected.
  pub record IsAdmitted (r : Resource) : Type 0 where
    pub target : Text
    pub identified : target_identity r.ref.type r.ref.name r.desired ≡ some target
    pub allowed : refuses r.ref target r.desired ≡ false

  add_node-IsDistinct :
      (r : Resource) (acc : Collected)
      → IsDistinct (keys acc.0)
      → IsDistinct (keys (add_node refuses r acc).0)
  unfolding add_node
  add_node-IsDistinct r (nodes, errs) h = at (target_identity r.ref.type r.ref.name r.desired) refl
    where
      at :
          (o : Option Text)
          → target_identity r.ref.type r.ref.name r.desired ≡ o
          → IsDistinct (keys (add_node refuses r (nodes, errs)).0)
      at none e = rw (e, add_node) h
      at (some t) e = elim (Bool-cases (refuses r.ref t r.desired)) [
        | inl no' ↦ rw (e, no', add_node) h
        | inr ok ↦ rw (e, ok, add_node) (keys-put-IsDistinct r.ref _ nodes h)
      ]

  pub add_nodes-IsDistinct :
      (rs : List Resource) (acc : Collected)
      → IsDistinct (keys acc.0)
      → IsDistinct (keys (add_nodes refuses rs acc).0)
  unfolding add_nodes
  add_nodes-IsDistinct [] acc h = h
  add_nodes-IsDistinct (r ∷ rs) acc h =
      add_nodes-IsDistinct rs (add_node refuses r acc) (add_node-IsDistinct r acc h)

  -- One round either reports an error or admits its resource as a node.
  add_node-cases :
      (r : Resource) (acc : Collected)
      → (length (add_node refuses r acc).1 ≡ suc (length acc.1))
        ⊎ (IsAdmitted r
            × (has r.ref (add_node refuses r acc).0 ≡ true)
            × (length (add_node refuses r acc).1 ≡ length acc.1))
  unfolding add_node
  add_node-cases r (nodes, errs) = at (target_identity r.ref.type r.ref.name r.desired) refl
    where
      at :
          (o : Option Text)
          → target_identity r.ref.type r.ref.name r.desired ≡ o
          → (length (add_node refuses r (nodes, errs)).1 ≡ suc (length errs))
            ⊎ (IsAdmitted r
                × (has r.ref (add_node refuses r (nodes, errs)).0 ≡ true)
                × (length (add_node refuses r (nodes, errs)).1 ≡ length errs))
      at none e =
          inl (rw (e, add_node) (omega (arith, length-append errs (no_identity r.ref ∷ []))))
      at (some t) e = elim (Bool-cases (refuses r.ref t r.desired)) [
        | inl no' ↦ inl (
            rw (e, no', add_node) (omega (arith, length-append errs (protected_target r.ref ∷ []))))
        | inr ok ↦ inr (
          record { target = t; identified = e; allowed = ok },
          rw (e, ok, add_node, has-put, ==_refl r.ref),
          rw (e, ok, add_node),
        )
      ]

  add_node-errs :
      (r : Resource) (acc : Collected) → length acc.1 ≤ length (add_node refuses r acc).1
  add_node-errs r acc = elim (add_node-cases r acc) [
    | inl e ↦ omega arith
    | inr (admitted, known, e) ↦ omega arith
  ]

  add_nodes-errs :
      (rs : List Resource) (acc : Collected) → length acc.1 ≤ length (add_nodes refuses rs acc).1
  unfolding add_nodes
  add_nodes-errs [] acc = omega arith
  add_nodes-errs (r ∷ rs) acc =
      omega (arith, add_node-errs r acc, add_nodes-errs rs (add_node refuses r acc))

  add_node-has :
      (r : Resource) (a : Reference) (acc : Collected)
      → has a acc.0 ≡ true
      → has a (add_node refuses r acc).0 ≡ true
  unfolding add_node
  add_node-has r a (nodes, errs) h = at (target_identity r.ref.type r.ref.name r.desired) refl
    where
      at :
          (o : Option Text)
          → target_identity r.ref.type r.ref.name r.desired ≡ o
          → has a (add_node refuses r (nodes, errs)).0 ≡ true
      at none e = rw (e, add_node) h
      at (some t) e = elim (Bool-cases (refuses r.ref t r.desired)) [
        | inl no' ↦ rw (e, no', add_node) h
        | inr ok ↦
            rw (e, ok, add_node)
              (ground (arith, has-put r.ref a (record { resource = r; target = t }) nodes))
      ]

  add_nodes-has :
      (rs : List Resource) (a : Reference) (acc : Collected)
      → has a acc.0 ≡ true
      → has a (add_nodes refuses rs acc).0 ≡ true
  unfolding add_nodes
  add_nodes-has [] a acc h = h
  add_nodes-has (r ∷ rs) a acc h =
      add_nodes-has rs a (add_node refuses r acc) (add_node-has r a acc h)

  pub add_nodes_complete :
      (rs : List Resource) (acc : Collected)
      → length (add_nodes refuses rs acc).1 ≡ 0
      → All (λ r. IsAdmitted r × (has r.ref (add_nodes refuses rs acc).0 ≡ true)) rs
  unfolding add_nodes
  add_nodes_complete [] acc h = tt
  add_nodes_complete (r ∷ rs) acc h =
      let acc' = add_node refuses r acc in
      elim (add_node-cases r acc) [
        | inl e ↦ absurd (omega (arith, add_nodes-errs rs acc', e, h))
        | inr (admitted, known, e) ↦
            ((admitted, add_nodes-has rs r.ref acc' known), add_nodes_complete rs acc' h)
      ]
