-- ===== src/Reconcile/Spread.antt =====
-- internal/reconcile/reconcile.go: the inner loop of block.
use datum.Prelude.{
  ◌==◌, ==_iff, ==_refl, ℕ, ◌+◌, ◌≤◌, ◌<◌, ◌≡◌, refl, false, not, ◌&&◌, ◌||◌, List, [], ◌∷◌, ◌++◌,
  All, All-map, any, length, length-append, contains, arith, if◌then◌else◌,
}
use datum.Map.{has, has-put, put}
use datum.Document.Reference.{Reference, ref_eq}
use datum.Graph.{Edge, dependents}
use datum.Graph.Sort.Release.{arrivals}
use datum.Graph.Sort.Cycle.{linked}
use datum.Reconcile.Block.{Cause, Blocked, spread}

pub any-dependents :
    (a b : Reference) (es : List Edge)
    → any (λ (e : Edge). e.to == b) (dependents a es) ≡ linked a b es
unfolding dependents linked
any-dependents a b [] = refl
any-dependents a b (e ∷ es) = ground (arith, any-dependents a b es)

pub contains-append :
    (xs ys : List Reference) (a : Reference)
    → contains (xs ++ ys) a ≡ (contains xs a || contains ys a)
unfolding contains
contains-append [] ys a = refl
contains-append (x ∷ xs) ys a = ground (arith, contains-append xs ys a)

-- After the inner loop the targets of the edges are blocked too.
pub spread-has :
    (cause : Cause) (x : Reference) (es : List Edge) (b : Blocked) (q : List Reference)
    → has x (spread cause es b q).0 ≡ (has x b || any (λ (e : Edge). e.to == x) es)
unfolding spread
spread-has cause x [] b q = ground arith
spread-has cause x (e ∷ es) b q = ground (
  arith,
  spread-has cause x es (if has e.to b then b else put e.to cause b)
      (if has e.to b then q else q ++ e.to ∷ []),
  has-put e.to x cause b,
  ==_iff e.to x,
)

-- The queue keeps what it holds, and gains just what was blocked anew.
pub spread-queue :
    (cause : Cause) (x : Reference) (es : List Edge) (b : Blocked) (q : List Reference)
    → contains (spread cause es b q).1 x
      ≡ (contains q x || not (has x b) && any (λ (e : Edge). e.to == x) es)
unfolding spread contains
spread-queue cause x [] b q = ground arith
spread-queue cause x (e ∷ es) b q = ground (
  arith,
  spread-queue cause x es (if has e.to b then b else put e.to cause b)
      (if has e.to b then q else q ++ e.to ∷ []),
  has-put e.to x cause b,
  ==_iff e.to x,
  contains-append q (e.to ∷ []) x,
)

-- The edges that lead to a resource which is not blocked yet.
pub open_edges : Blocked → List Edge → ℕ
open_edges b [] = 0
open_edges b (e ∷ es) = (if has e.to b then 0 else 1) + open_edges b es

pub open_edges-le_length : (b : Blocked) (es : List Edge) → open_edges b es ≤ length es
unfolding open_edges
open_edges-le_length b [] = omega arith
open_edges-le_length b (e ∷ es) = ground (arith, open_edges-le_length b es)

-- Blocking a resource closes every edge that leads to it.
open_edges-put :
    (cause : Cause) (x : Reference) (b : Blocked) (es : List Edge)
    → has x b ≡ false
    → open_edges (put x cause b) es + arrivals x es ≡ open_edges b es
unfolding open_edges arrivals
open_edges-put cause x b [] h = refl
open_edges-put cause x b (e ∷ es) h =
    ground
      (arith, open_edges-put cause x b es h, has-put x e.to cause b, ==_iff x e.to, ==_iff e.to x)

pub arrivals_self : (es : List Edge) → All (λ e. 0 < arrivals e.to es) es
unfolding arrivals
arrivals_self [] = tt
arrivals_self (e ∷ es) = (
  ground (arith, ==_refl e.to),
  All-map (λ (f : Edge) (h : 0 < arrivals f.to es). omega arith) es (arrivals_self es),
)

-- What enters the queue is paid for by edges that close.
pub spread-measure :
    (cause : Cause) (edges es : List Edge) (b : Blocked) (q : List Reference)
    → All (λ e. 0 < arrivals e.to edges) es
    → length (spread cause es b q).1 + open_edges (spread cause es b q).0 edges
      ≤ length q + open_edges b edges
unfolding spread
spread-measure cause edges [] b q h = omega arith
spread-measure cause edges (e ∷ es) b q h = ground (
  arith,
  spread-measure cause edges es (if has e.to b then b else put e.to cause b)
      (if has e.to b then q else q ++ e.to ∷ []) h.1,
  open_edges-put cause e.to b edges,
  length-append q (e.to ∷ []),
  h.0,
)
