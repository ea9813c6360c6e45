-- ===== src/Reconcile/Verified.antt =====
-- internal/reconcile/reconcile.go: what a resource that enforce calls converged has been through.
use datum.Prelude.{
  ◌≡◌, ◌⊎◌, inl, inr, refl, subst, sym, ap, ◌∙◌, false, Bool-cases, none, some, Option-cases, List,
  [], ◌∷◌, arith,
}
use datum.Map.{lookup}
use datum.State.{Action, converged}
use datum.Document.Reference.{ref_eq}
use datum.Graph.{Node}
use datum.Provider.{
  no_trigger, Request, is_present, Observation, desired_or, Observed, observed, unreadable, Applied,
  applied, refused, overran, Provider, provider_for,
}
use datum.Plan.{FieldDiff, correctable, uncorrectable, compare}
use datum.Plan.Build.{Step}
use datum.Reconcile.Apply.{
  Options, judge_fields, verify, read_back, after_apply, request_of, enforce_with, enforce,
}

-- The observation agrees with the request: the target is there exactly if it is declared to be, and
-- if it is, no field that is compared differs.
abbrev pub IsAsDeclared : Request → Observation → Type 0
IsAsDeclared request o =
    (o.exists ≡ is_present request)
    × ((o.exists ≡ false) ⊎ ((compare request.ref (desired_or o request.desired) o).fields ≡ []))

fields-nil :
    (fields : List FieldDiff) → correctable fields ≡ [] → uncorrectable fields ≡ [] → fields ≡ []
unfolding correctable uncorrectable
fields-nil [] h k = refl
fields-nil (d ∷ ds) h k = ground (arith, h, k)

judge_fields-converged :
    (fields : List FieldDiff) → (judge_fields fields).standing ≡ converged → fields ≡ []
unfolding judge_fields
judge_fields-converged fields h = fields-nil fields (ground (arith, h)) (ground (arith, h))

verify-converged :
    (request : Request) (o : Observation)
    → (verify request o).standing ≡ converged
    → IsAsDeclared request o
unfolding verify
verify-converged request o h = (
  ground (arith, h),
  elim (Bool-cases o.exists) [
    | inl e ↦ inr (
        judge_fields-converged (compare request.ref (desired_or o request.desired) o).fields
          (ground (arith, h, e)))
    | inr e ↦ inl e
  ],
)

module _ {World : Type 0} where
  -- What the provider read after its own action.
  abbrev pub IsVerified : Provider World → Request → World → Type 0
  IsVerified p request world =
      let reading : Request = record request { trigger = no_trigger } in
      (o : Observation) × (p.observe reading world ≡ observed o) × IsAsDeclared reading o

  read_back-converged :
      (p : Provider World) (request : Request) (world : World)
      → (read_back p request world).standing ≡ converged
      → IsVerified p request world
  unfolding read_back
  read_back-converged p request world h = at (p.observe reading world) refl
    where
      reading : Request
      reading = record request { trigger = no_trigger }

      at : (r : Observed) → p.observe reading world ≡ r → IsVerified p request world
      at (observed o) e = (o, e, verify-converged reading o (ground (arith, h, e)))
      at (unreadable err) e = absurd (ground (arith, h, e))

  after_apply-converged :
      (p : Provider World) (request : Request) (action : Action) (result : Applied) (world : World)
      → (after_apply p request action result world).0.standing ≡ converged
      → (result ≡ applied)
        × ((after_apply p request action result world).1 ≡ world)
        × IsVerified p request world
  unfolding after_apply
  after_apply-converged p request action applied world h =
      (refl, refl, read_back-converged p request world h)
  after_apply-converged p request action (refused err) world h = absurd (ground (arith, h))
  after_apply-converged p request action overran world h = absurd (ground (arith, h))

  -- The steps that lead to a verdict `converged` with the host `world'`.
  pub record IsCarriedOut (opts : Options World) (step : Step) (world world' : World)
      (p : Provider World) (node : Node) : Type 0 where
    permitted : opts.identity_refusal step.ref node.target world ≡ none
    acted : p.apply (request_of opts step node) step.action world ≡ (applied, world')
    verified : IsVerified p (request_of opts step node) world'

  enforce_with-converged :
      (opts : Options World) (step : Step) (world : World) (p : Provider World) (node : Node)
      → (enforce_with opts step world p node).0.standing ≡ converged
      → IsCarriedOut opts step world (enforce_with opts step world p node).1 p node
  unfolding enforce_with
  enforce_with-converged opts step world p node h =
      elim (Option-cases (opts.identity_refusal step.ref node.target world)) [
        | inl e ↦
            let request = request_of opts step node in
            let (result, world') = p.apply request step.action world in
            let same : enforce_with opts step world p node
                ≡ after_apply p request step.action result world' =
              ground (arith, e) in
            let (done, kept, seen) =
              after_apply-converged p request step.action result world'
                (ap (λ r. r.0.standing) (sym same) ∙ h) in
            let there : world' ≡ (enforce_with opts step world p node).1 =
              sym (ap (λ r. r.1) same ∙ kept) in
            record {
              permitted = e;
              acted = ap (λ a. (a, world')) done ∙ ap (λ w. (applied, w)) there;
              verified = subst (IsVerified p request) there seen;
            }
        | inr (err, e) ↦ absurd (ground (arith, h, e))
      ]

  enforce-cases :
      (opts : Options World) (step : Step) (world : World)
      → (enforce opts step world).0.standing ≡ converged
      → (p : Provider World) × (node : Node) × (provider_for opts.providers step.ref.type ≡ some p)
        × (lookup step.ref opts.graph.nodes ≡ some node)
        × (enforce opts step world ≡ enforce_with opts step world p node)
  unfolding enforce
  enforce-cases opts step world h =
      elim (Option-cases (provider_for opts.providers step.ref.type)) [
        | inl e ↦ absurd (ground (arith, h, e))
        | inr (p, e) ↦ elim (Option-cases (lookup step.ref opts.graph.nodes)) [
          | inl f ↦ absurd (ground (arith, h, e, f))
          | inr (node, f) ↦ (p, node, e, f, ground (arith, e, f))
        ]
      ]

-- A resource that enforce calls converged has been acted on, where nothing protects it, by its
-- provider, which reported success; and the provider then read the changed host again, without the
-- trigger, and found what is declared.
pub enforce-converged :
    {World : Type 0} (opts : Options World) (step : Step) (world : World)
    → (enforce opts step world).0.standing ≡ converged
    → (p : Provider World) × (node : Node) × (provider_for opts.providers step.ref.type ≡ some p)
      × (lookup step.ref opts.graph.nodes ≡ some node)
      × IsCarriedOut opts step world (enforce opts step world).1 p node
enforce-converged opts step world h =
    let (p, node, served, known, same) = enforce-cases opts step world h in
    let carried =
      enforce_with-converged opts step world p node (ap (λ r. r.0.standing) (sym same) ∙ h) in
    (
      p,
      node,
      served,
      known,
      subst (λ r. IsCarriedOut opts step world r.1 p node) (sym same) carried,
    )
