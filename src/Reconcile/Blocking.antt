-- ===== src/Reconcile/Blocking.antt =====
-- internal/reconcile/reconcile.go: no resource is acted on after one that it waits for has failed.
use datum.Prelude.{
  ◌≡◌, inl, inr, refl, sym, ap, ◌∙◌, true, false, Option, none, is_some, List, [], ◌∷◌, ◌++◌, arith,
}
use datum.Map.{has, has-lookup}
use datum.State.{Action}
use datum.Document.Reference.{Reference, ref_eq}
use datum.Graph.{Node}
use datum.Plan.{FieldDiff, compare}
use datum.Provider.{Provider, Applied, applied, refused, overran, desired_or, Request, Observation}
use datum.Plan.Build.{Step}
use datum.Reconcile.Block.{could_not_be_read, Blocked, block}
use datum.Reconcile.Apply.{
  request_of, Failure, Resource, Options, judge_fields, verify, read_back, after_apply,
  enforce_with, enforce,
}
use datum.Reconcile.Pass.{
  resource_of, Pass, must_block, dependency_reason, act, settle, fail_unread, hold_back, apply_step,
  apply_free, apply_all, begin,
}
use datum.Reconcile.Downstream.{Downstream, IsClosed, block-IsClosed, block-Downstream}

-- The error of the resource that a pass recorded last.
abbrev pub last_error : List Resource → Option Failure
last_error [] = none
last_error (r ∷ []) = r.err
last_error (r ∷ s ∷ rs) = last_error (s ∷ rs)

last_error-append : (rs : List Resource) (r : Resource) → last_error (rs ++ r ∷ []) ≡ r.err
last_error-append [] r = refl
last_error-append (s ∷ []) r = refl
last_error-append (s ∷ t ∷ rs) r = last_error-append (t ∷ rs) r

-- A verdict with an error is not `converged`.
judge_fields-err :
    (fields : List FieldDiff) → must_block (judge_fields fields) ≡ is_some (judge_fields fields).err
unfolding judge_fields must_block
judge_fields-err fields = ground arith

verify-err :
    (req : Request) (o : Observation) → must_block (verify req o) ≡ is_some (verify req o).err
unfolding verify must_block
verify-err req o =
    ground (arith, judge_fields-err (compare req.ref (desired_or o req.desired) o).fields)

module _ {World : Type 0} where
  read_back-err :
      (p : Provider World) (req : Request) (world : World)
      → must_block (read_back p req world) ≡ is_some (read_back p req world).err
  unfolding read_back must_block
  read_back-err p req world = grind (arith, verify-err)

  after_apply-err :
      (p : Provider World) (req : Request) (action : Action) (result : Applied) (world : World)
      → must_block (after_apply p req action result world).0
        ≡ is_some (after_apply p req action result world).0.err
  unfolding after_apply must_block
  after_apply-err p req action (refused err) world = refl
  after_apply-err p req action overran world = refl
  after_apply-err p req action applied world = read_back-err p req world

  enforce_with-err :
      (opts : Options World) (step : Step) (world : World) (p : Provider World) (node : Node)
      → must_block (enforce_with opts step world p node).0
        ≡ is_some (enforce_with opts step world p node).0.err
  unfolding enforce_with must_block
  enforce_with-err opts step world p node = ground (
    arith,
    after_apply-err p (request_of opts step node) step.action
        (p.apply (request_of opts step node) step.action world).0
        (p.apply (request_of opts step node) step.action world).1,
  )

  enforce-err :
      (opts : Options World) (step : Step) (world : World)
      → must_block (enforce opts step world).0 ≡ is_some (enforce opts step world).0.err
  unfolding enforce must_block
  enforce-err opts step world = grind (arith, enforce_with-err)

module _ {World : Type 0} (opts : Options World) where
  abbrev ClosedIn : Pass World → Type 0
  ClosedIn pass = IsClosed opts.graph.edges pass.blocked_by

  -- What `act` leaves blocked where the verdict blocks.
  abbrev after_error : Step → Pass World → Blocked
  after_error step pass =
      block opts.graph.edges pass.blocked_by step.ref
        (dependency_reason step.ref (enforce opts step pass.world).0.standing)

  abbrev after_unread : Step → Pass World → Blocked
  after_unread step pass = block opts.graph.edges pass.blocked_by step.ref could_not_be_read

  apply_step-IsClosed :
      (step : Step) (pass : Pass World) → ClosedIn pass → ClosedIn (apply_step opts step pass)
  unfolding apply_step fail_unread settle hold_back apply_free act
  apply_step-IsClosed step pass closed a b h l =
      let error =
        block-IsClosed opts.graph.edges
          (dependency_reason step.ref (enforce opts step pass.world).0.standing) pass.blocked_by
          step.ref closed a b in
      let unread =
        block-IsClosed opts.graph.edges could_not_be_read pass.blocked_by step.ref closed a b in
      ground (arith, closed a b, error, unread)

  apply_step-grown :
      (step : Step) (pass : Pass World) (x : Reference)
      → ClosedIn pass
      → has x pass.blocked_by ≡ true
      → has x (apply_step opts step pass).blocked_by ≡ true
  unfolding apply_step fail_unread settle hold_back apply_free act
  apply_step-grown step pass x closed h =
      let error =
        (block-Downstream opts.graph.edges
            (dependency_reason step.ref (enforce opts step pass.world).0.standing) pass.blocked_by
            step.ref x closed).1
          (inl h) in
      let unread =
        (block-Downstream opts.graph.edges could_not_be_read pass.blocked_by step.ref x closed).1
          (inl h) in
      ground (arith, error, unread)

  -- A step that adds an error blocks whatever waits for its resource.
  apply_step-error :
      (step : Step) (pass : Pass World) (x : Reference)
      → ClosedIn pass
      → is_some (last_error (apply_step opts step pass).resources) ≡ true
      → Downstream opts.graph.edges step.ref x
      → has x (apply_step opts step pass).blocked_by ≡ true
  unfolding apply_step fail_unread settle hold_back apply_free act resource_of
  apply_step-error step pass x closed h down =
      let error =
        (block-Downstream opts.graph.edges
            (dependency_reason step.ref (enforce opts step pass.world).0.standing) pass.blocked_by
            step.ref x closed).1
          (inr down) in
      let unread =
        (block-Downstream opts.graph.edges could_not_be_read pass.blocked_by step.ref x closed).1
          (inr down) in
      grind (arith, error, unread, last_error-append, enforce-err opts step pass.world)

  -- A step of a blocked resource does not reach a provider.
  apply_step-world :
      (step : Step) (pass : Pass World)
      → has step.ref pass.blocked_by ≡ true
      → (apply_step opts step pass).world ≡ pass.world
  unfolding apply_step fail_unread settle hold_back
  apply_step-world step pass h = ground (arith, has-lookup step.ref pass.blocked_by)

  -- The steps of a pass that the context does not end.
  abbrev run : List Step → Pass World → Pass World
  run [] pass = pass
  run (step ∷ steps) pass = run steps (apply_step opts step pass)

  apply_all-run :
      (steps : List Step) (pass : Pass World)
      → apply_all opts (λ ref. false) steps pass ≡ (run steps pass, true)
  unfolding apply_all
  apply_all-run [] pass = refl
  apply_all-run (step ∷ steps) pass = apply_all-run steps (apply_step opts step pass)

  run-append :
      (before after : List Step) (pass : Pass World)
      → run (before ++ after) pass ≡ run after (run before pass)
  run-append [] after pass = refl
  run-append (step ∷ before) after pass = run-append before after (apply_step opts step pass)

  run-IsClosed : (steps : List Step) (pass : Pass World) → ClosedIn pass → ClosedIn (run steps pass)
  run-IsClosed [] pass closed = closed
  run-IsClosed (step ∷ steps) pass closed =
      run-IsClosed steps (apply_step opts step pass) (apply_step-IsClosed step pass closed)

  run-grown :
      (steps : List Step) (pass : Pass World) (x : Reference)
      → ClosedIn pass
      → has x pass.blocked_by ≡ true
      → has x (run steps pass).blocked_by ≡ true
  run-grown [] pass x closed h = h
  run-grown (step ∷ steps) pass x closed h =
      run-grown steps (apply_step opts step pass) x (apply_step-IsClosed step pass closed)
        (apply_step-grown step pass x closed h)

  begin-IsClosed : (world : World) → ClosedIn (begin world)
  unfolding has
  begin-IsClosed world a b h l = ground arith

  run-error :
      (a : Step) (mid : List Step) (b : Step) (pass : Pass World)
      → ClosedIn pass
      → is_some (last_error (apply_step opts a pass).resources) ≡ true
      → Downstream opts.graph.edges a.ref b.ref
      → (run (mid ++ b ∷ []) (apply_step opts a pass)).world
        ≡ (run mid (apply_step opts a pass)).world
  run-error a mid b pass closed h down =
      let next = apply_step opts a pass in
      let closed_next = apply_step-IsClosed a pass closed in
      let marked =
        run-grown mid next b.ref closed_next (apply_step-error a pass b.ref closed h down) in
      ap (λ p. p.world) (run-append mid (b ∷ []) next) ∙ apply_step-world b (run mid next) marked

-- What a pass over the steps leaves, from an untouched host, where the context does not end it.
abbrev pub after : {World : Type 0} → Options World → List Step → World → Pass World
after opts steps world = (apply_all opts (λ ref. false) steps (begin world)).0

-- In a pass that the context does not end, once a step has recorded an error for its resource, no later step of a resource that
-- waits for it, at once or through others, changes the host, whatever steps lie between.
pub apply_all-holds_back :
    {World : Type 0} (opts : Options World) (before : List Step) (a : Step) (mid : List Step)
    (b : Step) (world : World)
    → is_some (last_error (after opts (before ++ a ∷ []) world).resources) ≡ true
    → Downstream opts.graph.edges a.ref b.ref
    → (after opts (before ++ a ∷ (mid ++ b ∷ [])) world).world
      ≡ (after opts (before ++ a ∷ mid) world).world
apply_all-holds_back opts before a mid b world h down =
    let pass = run opts before (begin world) in
    let first =
      ap (λ r. r.0) (apply_all-run opts (before ++ a ∷ []) (begin world))
      ∙ run-append opts before (a ∷ []) (begin world) in
    let part =
      ap (λ r. r.0) (apply_all-run opts (before ++ a ∷ mid) (begin world))
      ∙ run-append opts before (a ∷ mid) (begin world) in
    let whole =
      ap (λ r. r.0) (apply_all-run opts (before ++ a ∷ (mid ++ b ∷ [])) (begin world))
      ∙ run-append opts before (a ∷ (mid ++ b ∷ [])) (begin world) in
    ap (λ p. p.world) whole
    ∙ run-error opts a mid b pass
        (run-IsClosed opts before (begin world) (begin-IsClosed opts world))
        (ap (λ p. is_some (last_error p.resources)) (sym first) ∙ h) down
    ∙ sym (ap (λ p. p.world) part)
