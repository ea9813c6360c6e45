-- ===== src/Plan/Build/Steps.antt =====
-- internal/plan/plan.go: which steps a change in the plan pulls along.
use datum.Prelude.{
  ◌==◌, ==_iff, ◌≡◌, refl, sym, ap, ◌∙◌, Bool, true, false, ◌&&◌, ◌||◌, Option, some, none,
  Bool-cases, inl, inr, All, List, [], ◌∷◌, ◌++◌, any, contains, arith, if◌then◌else◌,
}
use datum.State.{Action, skip, changes}
use datum.Document.Reference.{Reference, ref_eq}
use datum.Document.Value.{Value}
use datum.Text.{Text}
use datum.Graph.{triggers, Edge, Graph, dependencies}
use datum.Observe
use datum.Plan.Build.{
  Step, fired, trigger_op, pull, plan_own, plan_triggers, plan_one, plan_all, build_plan,
  desired_at, target_at, wanted, decide, diff_or, diff_result,
}
use datum.Observe.{Result, result_for}
use datum.Provider.{desired_or}
use datum.Plan.{Diff, compare}

-- An edge on which a change of `a` reaches `b`.
abbrev pub pulls : Reference → Reference → List Edge → Bool
pulls a b edges = any (λ e. triggers e.kind && e.from == a && e.to == b) edges

-- The step has an action other than `none`.
abbrev pub has_action : Step → Bool
has_action s = elim s.action [ Action.none ↦ false | _ ↦ true ]

-- A step on `a` with such an action.
abbrev pub acts_on : Reference → List Step → Bool
acts_on a steps = any (λ s. has_action s && s.ref == a) steps

-- A step skips `a`.
abbrev pub skips : Reference → List Step → Bool
skips a steps = any (λ s. elim s.action [ skip ↦ true | _ ↦ false ] && s.ref == a) steps

-- The steps alter `a`.
abbrev pub altered : Reference → List Step → Bool
altered a steps = any (λ s. changes s.action && s.ref == a) steps

fired-contains :
    (changed : List Reference) (a b : Reference) (edges : List Edge)
    → contains (fired changed (dependencies b edges)) a ≡ (contains changed a && pulls a b edges)
unfolding fired dependencies contains
fired-contains changed a b [] = ground arith
fired-contains changed a b (e ∷ edges) =
    ground (arith, fired-contains changed a b edges, ==_iff e.from a, ==_iff e.to b)

plan_own-ref :
    (desired : Value) (ref : Reference) (target : Text) (found : Option Result)
    → (plan_own desired ref target found).ref ≡ ref
unfolding plan_own
plan_own-ref desired ref target found = ground arith

plan_own-triggers :
    (desired : Value) (ref : Reference) (target : Text) (found : Option Result)
    → (plan_own desired ref target found).triggers ≡ []
unfolding plan_own
plan_own-triggers desired ref target found = ground arith

pull-kept :
    (edges : List Edge) (step : Step)
    → ((pull edges step).ref ≡ step.ref) × ((pull edges step).triggers ≡ step.triggers)
unfolding pull
pull-kept edges step = ground arith

plan_triggers-kept :
    (edges : List Edge) (changed : List Reference) (step : Step)
    → step.triggers ≡ []
    → ((plan_triggers edges changed step).ref ≡ step.ref)
      × ((plan_triggers edges changed step).triggers ≡ fired changed edges)
unfolding plan_triggers
plan_triggers-kept edges changed step h = ground (
  arith,
  pull-kept edges (record step { triggers = fired changed edges; trigger = trigger_op edges }),
)

∷-inj : {A : Type 0} {x y : A} {xs ys : List A} → x ∷ xs ≡ y ∷ ys → (x ≡ y) × (xs ≡ ys)
∷-inj h = ground arith

module _ (g : Graph) (seen : Observe.State) where
  plan_one-kept :
      (changed : List Reference) (ref : Reference)
      → ((plan_one g seen changed ref).ref ≡ ref)
        × ((plan_one g seen changed ref).triggers ≡ fired changed (dependencies ref g.edges))
  unfolding plan_one
  plan_one-kept changed ref =
      let own = plan_own (desired_at g ref) ref (target_at g ref) (result_for seen ref) in
      let kept =
        plan_triggers-kept (dependencies ref g.edges) changed own
          (plan_own-triggers (desired_at g ref) ref (target_at g ref) (result_for seen ref)) in
      (kept.0 ∙ plan_own-ref (desired_at g ref) ref (target_at g ref) (result_for seen ref), kept.1)

  abbrev marked : Step → List Reference → List Reference
  marked step changed = if changes step.action then step.ref ∷ changed else changed

  contains-marked :
      (a : Reference) (step : Step) (changed : List Reference)
      → contains (marked step changed) a
        ≡ (changes step.action && step.ref == a || contains changed a)
  unfolding contains
  contains-marked a step changed = ground arith

  plan_all-cons :
      (changed : List Reference) (ref : Reference) (rest : List Reference)
      → plan_all g seen changed (ref ∷ rest)
        ≡ plan_one g seen changed ref
          ∷ plan_all g seen (marked (plan_one g seen changed ref) changed) rest
  unfolding plan_all
  plan_all-cons changed ref rest = ground (arith, plan_one-kept changed ref)

  plan_all-nil : (changed : List Reference) → plan_all g seen changed [] ≡ []
  unfolding plan_all
  plan_all-nil changed = refl

  plan_all-triggers :
      (a : Reference) (before : List Step) (step : Step) (after : List Step)
      (order changed : List Reference)
      → plan_all g seen changed order ≡ before ++ step ∷ after
      → contains step.triggers a
        ≡ (pulls a step.ref g.edges && (contains changed a || altered a before))
  plan_all-triggers a [] step after [] changed h = ground (arith, plan_all-nil changed)
  plan_all-triggers a (s ∷ before) step after [] changed h = ground (arith, plan_all-nil changed)
  plan_all-triggers a [] step after (ref ∷ order) changed h =
      let (here, later) = ∷-inj (sym (plan_all-cons changed ref order) ∙ h) in
      rw (sym here)
        (ground (arith, plan_one-kept changed ref, fired-contains changed a ref g.edges))
  plan_all-triggers a (s ∷ before) step after (ref ∷ order) changed h =
      let (here, later) = ∷-inj (sym (plan_all-cons changed ref order) ∙ h) in
      let now = plan_one g seen changed ref in
      let rest = plan_all-triggers a before step after order (marked now changed) later in
      rw (sym here) (ground (arith, rest, contains-marked a now changed))

-- Without a skip, an action alters.
altered-acts_on :
    (a : Reference) (steps : List Step) → skips a steps ≡ false → altered a steps ≡ acts_on a steps
unfolding changes
altered-acts_on a [] h = refl
altered-acts_on a (s ∷ steps) h = ground (arith, altered-acts_on a steps, h)

-- In a plan a resource that no earlier step skips is a trigger of a step exactly if an earlier step
-- has an action other than `none` for it, and a restart-on or reload-on edge of the graph leads from
-- it to the step's resource.
pub build_plan-triggers :
    (g : Graph) (seen : Observe.State) (a : Reference) (before : List Step) (step : Step)
    (after : List Step)
    → build_plan g seen ≡ before ++ step ∷ after
    → skips a before ≡ false
    → contains step.triggers a ≡ (pulls a step.ref g.edges && acts_on a before)
unfolding build_plan contains
build_plan-triggers g seen a before step after h k =
    plan_all-triggers g seen a before step after g.order [] h
    ∙ ap (λ b. pulls a step.ref g.edges && b) (altered-acts_on a before k)

-- The host was read at the resource, and it is as declared: absent where that is declared, and
-- otherwise there, without a difference.
abbrev pub IsMet : Graph → Observe.State → Reference → Type 0
IsMet g seen ref =
    (r : Result) × (result_for seen ref ≡ some r)
    × (r.skipped ≡ false)
    × (r.err ≡ none)
    × (r.observation.exists ≡ wanted (desired_at g ref))
    × (wanted (desired_at g ref) ≡ true
        → (compare r.ref (desired_or r.observation (desired_at g ref)) r.observation).fields ≡ [])

decide-met :
    (desired : Value) (diff : Diff)
    → diff.exists ≡ wanted desired
    → (wanted desired ≡ true → diff.fields ≡ [])
    → (decide desired diff).0 ≡ Action.none
unfolding decide
decide-met desired diff there same = elim (Bool-cases (wanted desired)) [
  | inl e ↦ ground (arith, e, there, same e)
  | inr e ↦ ground (arith, e, there)
]

plan_own-read :
    (desired : Value) (ref : Reference) (target : Text) (r : Result)
    → r.skipped ≡ false
    → r.err ≡ none
    → (plan_own desired ref target (some r)).action ≡ (decide desired (diff_result desired r)).0
unfolding plan_own diff_or
plan_own-read desired ref target r here fine = rw (here, fine) refl

plan_own-met :
    (g : Graph) (seen : Observe.State) (ref : Reference)
    → IsMet g seen ref
    → (plan_own (desired_at g ref) ref (target_at g ref) (result_for seen ref)).action ≡ Action.none
unfolding diff_result compare
plan_own-met g seen ref (r, read, here, fine, there, same) =
    rw (read, plan_own-read (desired_at g ref) ref (target_at g ref) r here fine)
      (decide-met (desired_at g ref) (diff_result (desired_at g ref) r) there same)

fired-nil : (edges : List Edge) → fired [] edges ≡ []
unfolding fired contains
fired-nil [] = refl
fired-nil (e ∷ edges) = ground (arith, fired-nil edges)

plan_triggers-nil : (edges : List Edge) (step : Step) → plan_triggers edges [] step ≡ step
unfolding plan_triggers
plan_triggers-nil edges step = ground (arith, fired-nil edges)

plan_one-met :
    (g : Graph) (seen : Observe.State) (ref : Reference)
    → IsMet g seen ref
    → (plan_one g seen [] ref).action ≡ Action.none
unfolding plan_one
plan_one-met g seen ref h =
    ap (λ s. s.action)
      (plan_triggers-nil (dependencies ref g.edges)
        (plan_own (desired_at g ref) ref (target_at g ref) (result_for seen ref)))
    ∙ plan_own-met g seen ref h

plan_all-met :
    (g : Graph) (seen : Observe.State) (order : List Reference)
    → All (IsMet g seen) order
    → any has_action (plan_all g seen [] order) ≡ false
unfolding changes
plan_all-met g seen [] h = ground (arith, plan_all-nil g seen [])
plan_all-met g seen (ref ∷ order) h =
    let rest = plan_all-met g seen order h.1 in
    let own = plan_one-met g seen ref h.0 in
    ground (arith, rest, own, plan_all-cons g seen [] ref order)

-- On a host that is as declared at every resource of the graph, and was read there, each step of the
-- plan has the action `none`.
pub build_plan-idle :
    (g : Graph) (seen : Observe.State)
    → All (IsMet g seen) g.order
    → any has_action (build_plan g seen) ≡ false
unfolding build_plan
build_plan-idle g seen h = plan_all-met g seen g.order h
