-- ===== src/Graph/Sort/Release.antt =====
-- internal/graph/graph.go: what the counts of sort hold at the start, and how releasing the
-- dependents of one resource changes them.
use datum.Prelude.{
  ◌==◌, ==_iff, ℕ, ◌+◌, ◌-◌, ◌<◌, ◌≡◌, refl, ◌∙◌, Bool, true, ◌&&◌, List, [], ◌∷◌, ◌++◌, All, count,
  count-append, IsDistinct, ltb, leb, eqb, arith, if◌then◌else◌,
}
use datum.Map.{get_or, get_or-put, put, keys, has, has-count, keys-put_self}
use datum.Document.Reference.{Reference, ref_eq}
use datum.Graph.{Edge}
use datum.Graph.Sort.{Waiting, start_waiting, count_waiting, refs_where, release}

-- How many edges lead to a resource.
unfoldable pub arrivals : Reference → List Edge → ℕ
arrivals n [] = 0
arrivals n (edge ∷ edges) = (if edge.to == n then 1 else 0) + arrivals n edges

-- Releasing takes each edge off the count of the resource that it leads to.
pub release-counts :
    (n : Reference) (es : List Edge) (w : Waiting) (f : List Reference)
    → get_or (release es w f).0 n 0 ≡ get_or w n 0 - arrivals n es
unfolding release arrivals
release-counts n [] w f = omega arith
release-counts n (edge ∷ es) w f = ground (
  arith,
  release-counts n es (put edge.to (get_or w edge.to 0 - 1) w)
      (if eqb (get_or w edge.to 0) 1 then f ++ edge.to ∷ [] else f),
  get_or-put edge.to n (get_or w edge.to 0 - 1) 0 w,
  ==_iff edge.to n,
)

-- A resource is freed, once, if its count was positive and these edges bring it to zero.
pub release-freed :
    (n : Reference) (es : List Edge) (w : Waiting) (f : List Reference)
    → count n (release es w f).1
      ≡ count n f + (if ltb 0 (get_or w n 0) && leb (get_or w n 0) (arrivals n es) then 1 else 0)
unfolding release arrivals count
release-freed n [] w f = ground arith
release-freed n (edge ∷ es) w f = ground (
  arith,
  release-freed n es (put edge.to (get_or w edge.to 0 - 1) w)
      (if eqb (get_or w edge.to 0) 1 then f ++ edge.to ∷ [] else f),
  get_or-put edge.to n (get_or w edge.to 0 - 1) 0 w,
  ==_iff edge.to n,
  count-append n f (edge.to ∷ []),
)

get_or-start_waiting : (refs : List Reference) (n : Reference) → get_or (start_waiting refs) n 0 ≡ 0
unfolding start_waiting get_or
get_or-start_waiting [] n = refl
get_or-start_waiting (r ∷ refs) n = ground (arith, get_or-start_waiting refs n)

keys-start_waiting : (refs : List Reference) → keys (start_waiting refs) ≡ refs
unfolding start_waiting keys
keys-start_waiting [] = refl
keys-start_waiting (r ∷ refs) = ground (arith, keys-start_waiting refs)

get_or-count_waiting :
    (n : Reference) (es : List Edge) (w : Waiting)
    → get_or (count_waiting es w) n 0 ≡ get_or w n 0 + arrivals n es
unfolding count_waiting arrivals
get_or-count_waiting n [] w = omega arith
get_or-count_waiting n (edge ∷ es) w = ground (
  arith,
  get_or-count_waiting n es (put edge.to (get_or w edge.to 0 + 1) w),
  get_or-put edge.to n (get_or w edge.to 0 + 1) 0 w,
  ==_iff edge.to n,
)

keys-count_waiting :
    (refs : List Reference) (es : List Edge) (w : Waiting)
    → keys w ≡ refs
    → All (λ edge. 0 < count edge.to refs) es
    → keys (count_waiting es w) ≡ refs
unfolding count_waiting
keys-count_waiting refs [] w e h = e
keys-count_waiting refs (edge ∷ es) w e h =
    keys-count_waiting refs es (put edge.to (get_or w edge.to 0 + 1) w)
      (keys-put_self edge.to (get_or w edge.to 0 + 1) w held ∙ e) h.1
  where
    held : has edge.to w ≡ true
    held = rw (has-count, e) (ground (arith, h.0))

-- Every resource has a count.
pub keys-start :
    (refs : List Reference) (es : List Edge)
    → All (λ edge. 0 < count edge.to refs) es
    → keys (count_waiting es (start_waiting refs)) ≡ refs
keys-start refs es h = keys-count_waiting refs es (start_waiting refs) (keys-start_waiting refs) h

-- At the start each count is the number of edges that lead there.
pub start-counts :
    (refs : List Reference) (es : List Edge) (n : Reference)
    → get_or (count_waiting es (start_waiting refs)) n 0 ≡ arrivals n es
start-counts refs es n =
    omega (arith, get_or-count_waiting n es (start_waiting refs), get_or-start_waiting refs n)

refs_where-absent :
    (test : ℕ → Bool) (n : Reference) (w : Waiting)
    → count n (keys w) ≡ 0
    → count n (refs_where test w) ≡ 0
unfolding refs_where keys count
refs_where-absent test n [] h = refl
refs_where-absent test n ((r, k) ∷ w) h = ground (arith, refs_where-absent test n w)

-- Which keys pass a test of their counts.
pub count-refs_where :
    (test : ℕ → Bool) (n : Reference) (w : Waiting)
    → IsDistinct (keys w)
    → count n (refs_where test w) ≡ (if test (get_or w n 0) then count n (keys w) else 0)
unfolding refs_where keys count get_or
count-refs_where test n [] h = ground arith
count-refs_where test n ((r, k) ∷ w) h = ground (
  arith,
  count-refs_where test n w (λ a. omega (arith, h a)),
  refs_where-absent test n w,
  h n,
  ==_iff r n,
)
