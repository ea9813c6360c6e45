-- ===== src/Reconcile/Downstream.antt =====
-- internal/reconcile/reconcile.go: block marks what is downstream of a failure, and nothing else.
use datum.Prelude.{
  ==_iff, ==_refl, ℕ, zero, suc, ◌+◌, ◌≤◌, ◌<◌, ◌≡◌, refl, true, not, ◌&&◌, ◌||◌, some, List, [],
  ◌∷◌, length, contains, Bool-cases, ◌⊎◌, inl, inr, ◌↔◌, arith,
}
use datum.Map.{has}
use datum.Document.Reference.{Reference, ref_eq}
use datum.Graph.{Edge, dependents}
use datum.Graph.Sort.Release.{arrivals}
use datum.Graph.Sort.Invariant.{All-dependents}
use datum.Graph.Sort.Cycle.{linked}
use datum.Reconcile.Block.{Cause, Blocked, spread, drain, block}
use datum.Reconcile.Spread.{
  any-dependents, spread-has, spread-queue, open_edges, open_edges-le_length, arrivals_self,
  spread-measure,
}

-- `b` waits for `a`, at once or through others.
pub data Downstream (edges : List Edge) (a : Reference) : Reference → Type 0 where
  direct : {b : Reference} → linked a b edges ≡ true → Downstream edges a b
  further :
      {b c : Reference} → Downstream edges a b → linked b c edges ≡ true → Downstream edges a c

-- Whatever waits for a blocked resource is blocked.
abbrev pub IsClosed : List Edge → Blocked → Type 0
IsClosed edges blocked =
    (a b : Reference) → has a blocked ≡ true → linked a b edges ≡ true → has b blocked ≡ true

module _ (edges : List Edge) (cause : Cause) (start : Blocked) (ref : Reference) where
  -- The invariant of block's loop.
  record Inv (b : Blocked) (q : List Reference) : Type 0 where
    kept : (x : Reference) → has x start ≡ true → has x b ≡ true
    sound : (x : Reference) → has x b ≡ true → (has x start ≡ true) ⊎ Downstream edges ref x
    queued : (x : Reference) → contains q x ≡ true → (x ≡ ref) ⊎ Downstream edges ref x
    ready :
        (x y : Reference)
        → has x b ≡ true
        → linked x y edges ≡ true
        → (has y b ≡ true) ⊎ (contains q x ≡ true)
    begun : (y : Reference) → linked ref y edges ≡ true → (has y b ≡ true) ⊎ (contains q ref ≡ true)

  step-down :
      (x y : Reference)
      → (x ≡ ref) ⊎ Downstream edges ref x
      → linked x y edges ≡ true
      → Downstream edges ref y
  step-down x y (inl e) h = direct (rw e at h)
  step-down x y (inr d) h = further d h

  abbrev next_blocked : Reference → Blocked → List Reference → Blocked
  next_blocked current b q = (spread cause (dependents current edges) b q).0

  abbrev next_queue : Reference → Blocked → List Reference → List Reference
  next_queue current b q = (spread cause (dependents current edges) b q).1

  has-next :
      (current x : Reference) (b : Blocked) (q : List Reference)
      → has x (next_blocked current b q) ≡ (has x b || linked current x edges)
  has-next current x b q =
      ground
        (arith, spread-has cause x (dependents current edges) b q, any-dependents current x edges)

  contains-next :
      (current x : Reference) (b : Blocked) (q : List Reference)
      → contains (next_queue current b q) x
        ≡ (contains q x || not (has x b) && linked current x edges)
  contains-next current x b q =
      ground
        (arith, spread-queue cause x (dependents current edges) b q, any-dependents current x edges)

  step-Inv :
      (current : Reference) (b : Blocked) (q : List Reference)
      → Inv b (current ∷ q)
      → Inv (next_blocked current b q) (next_queue current b q)
  unfolding contains
  step-Inv current b q inv = record {
    kept = λ x h. ground (arith, has-next current x b q, inv.kept x h);
    sound = λ x h. elim (Bool-cases (has x b)) [
      | inl e ↦ inv.sound x e
      | inr e ↦ inr (step-down current x here (ground (arith, has-next current x b q)))
    ];
    queued = λ x h. elim (Bool-cases (contains q x)) [
      | inl e ↦ inv.queued x (ground arith)
      | inr e ↦ inr (step-down current x here (ground (arith, contains-next current x b q)))
    ];
    ready = λ x y h l. ground (
      arith,
      inv.ready x y,
      has-next current x b q,
      has-next current y b q,
      contains-next current x b q,
      ==_iff current x,
    );
    begun = λ y l. ground (
      arith,
      inv.begun y l,
      has-next current y b q,
      contains-next current ref b q,
      ==_iff current ref,
    );
  }
    where
      here : (current ≡ ref) ⊎ Downstream edges ref current
      here = inv.queued current (ground (arith, ==_refl current))

  drain-Inv :
      (fuel : ℕ) (b : Blocked) (q : List Reference)
      → Inv b q
      → length q + open_edges b edges ≤ fuel
      → (b' : Blocked) × (drain edges cause fuel b q ≡ some b') × Inv b' []
  unfolding drain
  drain-Inv fuel b [] inv h = (b, refl, inv)
  drain-Inv zero b (current ∷ q) inv h = absurd (omega arith)
  drain-Inv (suc fuel) b (current ∷ q) inv h =
      drain-Inv fuel (next_blocked current b q) (next_queue current b q) (step-Inv current b q inv)
        (omega (
          arith,
          spread-measure cause edges (dependents current edges) b q
              (All-dependents (λ e. 0 < arrivals e.to edges) current edges (arrivals_self edges)),
        ))

  start-Inv : IsClosed edges start → Inv start (ref ∷ [])
  unfolding contains
  start-Inv closed = record {
    kept = λ x h. h;
    sound = λ x h. inl h;
    queued = λ x h. inl (ground (arith, ==_iff ref x));
    ready = λ x y h l. inl (closed x y h l);
    begun = λ y l. inr (ground (arith, ==_refl ref));
  }

  -- The loop of block ends within its rounds.
  block-Inv : IsClosed edges start → Inv (block edges start ref cause) []
  unfolding block
  block-Inv closed =
      let (b', run, inv) =
        drain-Inv (suc (length edges)) start (ref ∷ []) (start-Inv closed)
          (omega (arith, open_edges-le_length start edges)) in
      rw (run, block) inv

  -- From a final state, everything downstream is blocked.
  reached : (b : Blocked) → Inv b [] → (x : Reference) → Downstream edges ref x → has x b ≡ true
  unfolding contains
  reached b inv x (direct l) = ground (arith, inv.begun x l)
  reached b inv x (further {b = y} d l) = ground (arith, inv.ready y x (reached b inv y d) l)

-- If whatever waits for a blocked resource was blocked before block, it is so after it.
pub block-IsClosed :
    (edges : List Edge) (cause : Cause) (start : Blocked) (ref : Reference)
    → IsClosed edges start
    → IsClosed edges (block edges start ref cause)
unfolding contains
block-IsClosed edges cause start ref closed a b h l =
    ground (arith, (block-Inv edges cause start ref closed).ready a b h l)

-- block marks exactly what waits for the failed resource, at once or through others, and keeps what
-- was marked before; this supposes that whatever waits for a marked resource is marked already.
pub block-Downstream :
    (edges : List Edge) (cause : Cause) (start : Blocked) (ref x : Reference)
    → IsClosed edges start
    → (has x (block edges start ref cause) ≡ true) ↔ ((has x start ≡ true) ⊎ Downstream edges ref x)
block-Downstream edges cause start ref x closed =
    let inv = block-Inv edges cause start ref closed in
    (
      inv.sound x,
      λ d. elim d [
        | inl old ↦ inv.kept x old
        | inr down ↦ reached edges cause start ref (block edges start ref cause) inv x down
      ],
    )
