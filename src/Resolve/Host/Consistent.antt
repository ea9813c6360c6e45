-- ===== src/Resolve/Host/Consistent.antt =====
-- internal/resolve/resolve.go: what the fold of Host keeps.
use datum.Prelude.{
  ◌==◌, ==_iff, ◌≡◌, refl, sym, ap, ◌∙◌, ◌⊎◌, inl, inr, Bool, ◌||◌, Bool-cases, Option-cases, some,
  List, [], ◌∷◌, ◌++◌, any, count, count-append, contains, contains-count, IsDistinct, arith,
  if◌then◌else◌,
}
use datum.Map.{Map, lookup, has, has-put, has-lookup, put, lookup-put}
use datum.Text.{Text, text_eq}
use datum.Document.Reference.{Reference, ref_eq, ref_string}
use datum.Document.Documents.{Declared}
use datum.Resolve.Manifest.{Resource}
use datum.Resolve.Merge.{Precedences, merge}
use datum.Resolve.Substitute.{substitute, new_substituter, used_of}
use datum.Resolve.Host.{
  MatchedLayer, Fold, first_resource, merged_resource, fold_resource, fold_resources, fold_layers,
  resources_in,
}

-- The fold has one resource, of that name, for each reference in the order.
pub record IsConsistent (state : Fold) : Type 0 where
  pub same : (ref : Reference) → contains state.order ref ≡ has ref state.merged
  pub named : (ref : Reference) (r : Resource) → lookup ref state.merged ≡ some r → r.ref ≡ ref
  pub distinct : IsDistinct state.order

-- Whether one of the resources declares a reference.
abbrev pub declares : List Declared → Reference → Bool
declares resources ref = any (λ d. d.ref == ref) resources

contains-snoc :
    (refs : List Reference) (d ref : Reference)
    → contains (refs ++ d ∷ []) ref ≡ (contains refs ref || d == ref)
unfolding contains
contains-snoc [] d ref = ground arith
contains-snoc (r ∷ refs) d ref = ground (arith, contains-snoc refs d ref)

-- One more reference, unless it is there.
next_order :
    (order : List Reference) (d ref : Reference)
    → contains (if contains order d then order else order ++ d ∷ []) ref
      ≡ (d == ref || contains order ref)
next_order order d ref = ground (arith, contains-snoc order d ref, ==_iff d ref)

next_order-IsDistinct :
    (order : List Reference) (d : Reference)
    → IsDistinct order
    → IsDistinct (if contains order d then order else order ++ d ∷ [])
unfolding count
next_order-IsDistinct order d inv ref =
    ground (arith, inv ref, contains-count order d, ==_iff d ref, count-append ref order (d ∷ []))

module _ (precedences : Precedences) (name : Text) (labels : Map Text Text)
    (layer : MatchedLayer) where
  -- The two branches of the body, without what they compute.
  fold_resource-order :
      (d : Declared) (state : Fold)
      → (fold_resource precedences name labels layer d state).order
        ≡ (if has d.ref state.merged then state.order else state.order ++ d.ref ∷ [])
  unfolding fold_resource
  fold_resource-order d state = elim (Option-cases (lookup d.ref state.merged)) [
    | inl e ↦ rw (has-lookup d.ref state.merged, e, fold_resource) refl
    | inr (r, e) ↦ rw (has-lookup d.ref state.merged, e, fold_resource) refl
  ]

  fold_resource-merged :
      (d : Declared) (state : Fold)
      → (r : Resource) × ((fold_resource precedences name labels layer d state).merged
          ≡ put d.ref r state.merged)
        × ((r.ref ≡ d.ref)
            ⊎ ((old : Resource) × (lookup d.ref state.merged ≡ some old) × (r.ref ≡ old.ref)))
  unfolding fold_resource first_resource merged_resource
  fold_resource-merged d state =
      let sub = substitute d.desired (new_substituter name labels) in
      elim (Option-cases (lookup d.ref state.merged)) [
        | inl e ↦
            (first_resource layer d sub.0 (used_of sub.1), rw (e, fold_resource) refl, inl refl)
        | inr (old, e) ↦
            let value =
              merge precedences (ref_string d.ref) old.desired sub.0
                (record { layer = layer.name; precedence = layer.precedence }) in
            (
              merged_resource layer d value.0 (used_of sub.1) old,
              rw (e, fold_resource) refl,
              inr (old, e, refl),
            )
      ]

  fold_resource-has :
      (d : Declared) (state : Fold) (ref : Reference)
      → has ref (fold_resource precedences name labels layer d state).merged
        ≡ (d.ref == ref || has ref state.merged)
  fold_resource-has d state ref =
      let step = fold_resource-merged d state in
      rw (step.1, has-put d.ref ref step.0 state.merged) (ground arith)

  new_named :
      (d : Declared) (state : Fold)
      → IsConsistent state
      → (ref : Reference) (r : Resource)
      → lookup ref (fold_resource precedences name labels layer d state).merged ≡ some r
      → r.ref ≡ ref
  new_named d state inv ref r e =
      let step = fold_resource-merged d state in
      let found : (if d.ref == ref then some step.0 else lookup ref state.merged) ≡ some r =
        sym (ap (lookup ref) step.1 ∙ lookup-put d.ref ref step.0 state.merged) ∙ e in
      elim (Bool-cases (d.ref == ref)) [
        | inr other ↦ inv.named ref r (ground (arith, found, other))
        | inl here ↦
            let same = (==_iff d.ref ref).0 here in
            let new : step.0 ≡ r = ground (arith, found, here) in
            elim step.2 [
              | inl first ↦ sym (ap (λ (x : Resource). x.ref) new) ∙ (first ∙ same)
              | inr (old, known, kept) ↦
                  sym (ap (λ (x : Resource). x.ref) new)
                  ∙ (kept ∙ (inv.named d.ref old known ∙ same))
            ]
      ]

  fold_resource-IsConsistent :
      (d : Declared) (state : Fold)
      → IsConsistent state
      → IsConsistent (fold_resource precedences name labels layer d state)
  fold_resource-IsConsistent d state inv =
      let step = fold_resource-merged d state in
      record {
        same = λ ref.
            rw
              (
                fold_resource-order d state,
                fold_resource-has d state ref,
                sym (inv.same d.ref),
                sym (inv.same ref),
              )
              (next_order state.order d.ref ref);
        named = λ ref r e. new_named d state inv ref r e;
        distinct =
            rw (fold_resource-order d state, sym (inv.same d.ref))
              (next_order-IsDistinct state.order d.ref inv.distinct);
      }

  fold_resources-IsConsistent :
      (ds : List Declared) (state : Fold)
      → IsConsistent state
      → IsConsistent (fold_resources precedences name labels layer ds state)
  unfolding fold_resources
  fold_resources-IsConsistent [] state inv = inv
  fold_resources-IsConsistent (d ∷ ds) state inv =
      fold_resources-IsConsistent ds (fold_resource precedences name labels layer d state)
        (fold_resource-IsConsistent d state inv)

  fold_resources-has :
      (ds : List Declared) (state : Fold) (ref : Reference)
      → has ref (fold_resources precedences name labels layer ds state).merged
        ≡ (has ref state.merged || declares ds ref)
  unfolding fold_resources
  fold_resources-has [] state ref = ground arith
  fold_resources-has (d ∷ ds) state ref =
      let next = fold_resource precedences name labels layer d state in
      ground (arith, fold_resources-has ds next ref, fold_resource-has d state ref)

-- Whether one of the layers declares a reference.
abbrev pub declared_in : List Declared → Reference → MatchedLayer → Bool
declared_in resources ref layer = declares (resources_in resources layer.name) ref

module _ (precedences : Precedences) (name : Text) (labels : Map Text Text)
    (resources : List Declared) where
  pub fold_layers-IsConsistent :
      (layers : List MatchedLayer) (state : Fold)
      → IsConsistent state
      → IsConsistent (fold_layers precedences name labels resources layers state)
  unfolding fold_layers
  fold_layers-IsConsistent [] state inv = inv
  fold_layers-IsConsistent (layer ∷ layers) state inv = fold_layers-IsConsistent layers _ (
      fold_resources-IsConsistent precedences name labels layer (resources_in resources layer.name)
        state inv)

  pub fold_layers-has :
      (layers : List MatchedLayer) (state : Fold) (ref : Reference)
      → has ref (fold_layers precedences name labels resources layers state).merged
        ≡ (has ref state.merged || any (declared_in resources ref) layers)
  unfolding fold_layers
  fold_layers-has [] state ref = ground arith
  fold_layers-has (layer ∷ layers) state ref =
      let ds = resources_in resources layer.name in
      let next = fold_resources precedences name labels layer ds state in
      ground (
        arith,
        fold_layers-has layers next ref,
        fold_resources-has precedences name labels layer ds state ref,
      )
