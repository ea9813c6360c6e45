-- ===== src/Reconcile/Modes.antt =====
-- internal/reconcile/reconcile.go: what a pass may change, and what its outcome says.
use datum.Prelude.{
  ◌≡◌, ◌≢◌, ◌↔◌, inl, inr, refl, ◌∙◌, Bool, true, false, some, List, [], ◌∷◌, all, Bool-cases,
  arith,
}
use datum.State.{drifted, failed, blocked, outcome_converged, outcome_changed}
use datum.Document.Reference.{Reference}
use datum.Plan.Build.{Step}
use datum.Reconcile.Apply.{observing, Resource, Options}
use datum.Reconcile.Pass.{Pass, apply_step, apply_all, begin, scan, outcome, result_of, apply}

module _ {World : Type 0} (opts : Options World) (observes : opts.mode ≡ observing) where
  apply_step-world :
      (step : Step) (pass : Pass World) → (apply_step opts step pass).world ≡ pass.world
  unfolding apply_step
  apply_step-world step pass = ground arith

  apply_step-acted :
      (step : Step) (pass : Pass World) → (apply_step opts step pass).acted ≡ pass.acted
  unfolding apply_step
  apply_step-acted step pass = ground arith

  apply_all-observing :
      (stopped : Reference → Bool) (steps : List Step) (pass : Pass World)
      → ((apply_all opts stopped steps pass).0.world ≡ pass.world)
        × ((apply_all opts stopped steps pass).0.acted ≡ pass.acted)
  unfolding apply_all
  apply_all-observing stopped [] pass = (refl, refl)
  apply_all-observing stopped (step ∷ steps) pass =
      let later = apply_all-observing stopped steps (apply_step opts step pass) in
      elim (Bool-cases (stopped step.ref)) [
        | inl e ↦ rw e (refl, refl)
        | inr e ↦ rw e (later.0 ∙ apply_step-world step pass, later.1 ∙ apply_step-acted step pass)
      ]

result_of-quiet :
    {World : Type 0} (pass : Pass World) (done : Bool)
    → pass.acted ≡ false
    → (result_of pass done).outcome ≢ outcome_changed
unfolding result_of outcome
result_of-quiet pass true h = ground arith
result_of-quiet pass false h = ground arith

-- In observe mode a pass leaves the host as it was, whatever the plan asks for and whatever the
-- providers would do, and it never ends with the outcome `changed`.
pub apply-observing :
    {World : Type 0} (opts : Options World) (stopped : Reference → Bool) (steps : List Step)
    (world : World)
    → opts.mode ≡ observing
    → ((apply opts stopped steps world).2 ≡ world)
      × ((apply opts stopped steps world).0.outcome ≢ outcome_changed)
unfolding apply
apply-observing opts stopped steps world observes =
    let kept = apply_all-observing opts observes stopped steps (begin world) in
    (
      kept.0,
      result_of-quiet (apply_all opts stopped steps (begin world)).0
          (apply_all opts stopped steps (begin world)).1 kept.1,
    )

-- A resource that leaves nothing to report.
abbrev pub is_quiet : Resource → Bool
is_quiet r = elim r.standing [ failed ↦ false | blocked ↦ false | drifted ↦ false | _ ↦ true ]

scan-true : (rs : List Resource) → scan rs true ≢ some false
unfolding scan
scan-true [] = ground arith
scan-true (r ∷ rs) = ground (arith, scan-true rs)

scan-quiet : (rs : List Resource) → scan rs false ≡ some false → all is_quiet rs ≡ true
unfolding scan
scan-quiet [] h = refl
scan-quiet (r ∷ rs) h = ground (arith, scan-quiet rs, scan-true rs)

quiet-scan : (rs : List Resource) → all is_quiet rs ≡ true → scan rs false ≡ some false
unfolding scan
quiet-scan [] h = refl
quiet-scan (r ∷ rs) h = ground (arith, quiet-scan rs)

-- The outcome of a pass is `converged` exactly where no resource is failed, blocked or drifted and
-- no provider was asked to act.
pub outcome-converged :
    (rs : List Resource) (acted : Bool)
    → (outcome rs acted ≡ outcome_converged) ↔ ((all is_quiet rs ≡ true) × (acted ≡ false))
unfolding outcome
outcome-converged rs acted =
    (λ h. (scan-quiet rs (ground arith), ground arith), λ h. ground (arith, quiet-scan rs h.0))
