-- ===== src/Graph/Sort/Invariant.antt =====
-- internal/graph/graph.go: the invariant of the loop in sort.
use datum.Prelude.{
  ◌==◌, ==_iff, ==_refl, ℕ, zero, suc, ◌+◌, ◌-◌, ◌≤◌, ◌<◌, ◌≡◌, refl, sym, ap, ◌∙◌, true, not, ◌&&◌,
  some, List, [], ◌∷◌, ◌++◌, append-nil, append_assoc, All, All-map, Bool-cases, inl, inr, length,
  length-append, contains, contains-count, count, count-append, IsDistinct, length-le_of_counts,
  sort_by, sort_by-counts, eqb, arith, if◌then◌else◌,
}
use datum.Map.{get_or, put, keys, has, has-count, keys-put_self}
use datum.Document.Reference.{Reference, ref_eq, ref_less}
use datum.Graph.{Edge, dependents}
use datum.Graph.Sort.{Waiting, start_waiting, count_waiting, refs_where, release, enqueue, place}
use datum.Graph.Sort.Release.{
  arrivals, release-counts, release-freed, start-counts, keys-start, count-refs_where,
}

-- The edges that lead to `n` from a resource outside `placed`.
unfoldable pub awaited : List Reference → Reference → List Edge → ℕ
unfolding contains
awaited placed n [] = 0
awaited placed n (edge ∷ edges) =
    (if edge.to == n && not (contains placed edge.from) then 1 else 0) + awaited placed n edges

-- Each resource waits only for resources that stand before it or in `placed`.
abbrev pub IsOrdered : List Edge → List Reference → List Reference → Type 0
IsOrdered edges placed [] = Unit
IsOrdered edges placed (n ∷ rest) =
    (awaited placed n edges ≡ 0) × IsOrdered edges (placed ++ n ∷ []) rest

-- Both ends of each edge are resources of the manifest.
abbrev pub IsWithin : List Reference → List Edge → Type 0
IsWithin refs = All (λ edge. (0 < count edge.from refs) × (0 < count edge.to refs))

count-enqueue :
    (n : Reference) (ready freed : List Reference)
    → count n (enqueue ready freed) ≡ count n ready + count n freed
unfolding enqueue
count-enqueue n ready [] = unfold count in omega arith
count-enqueue n ready (r ∷ freed) =
    omega (arith, sort_by-counts ref_less (ready ++ r ∷ freed) n, count-append n ready (r ∷ freed))

awaited-nil : (n : Reference) (es : List Edge) → awaited [] n es ≡ arrivals n es
unfolding awaited arrivals
awaited-nil n [] = refl
awaited-nil n (edge ∷ es) = ground (arith, awaited-nil n es)

-- Placing `x` takes its edges off what is awaited.
awaited-snoc :
    (placed : List Reference) (x n : Reference) (es : List Edge)
    → count x placed ≡ 0
    → awaited (placed ++ x ∷ []) n es + arrivals n (dependents x es) ≡ awaited placed n es
unfolding awaited arrivals dependents count
awaited-snoc placed x n [] h = omega arith
awaited-snoc placed x n (edge ∷ es) h = ground (
  arith,
  awaited-snoc placed x n es h,
  contains-count placed edge.from,
  contains-count (placed ++ x ∷ []) edge.from,
  count-append edge.from placed (x ∷ []),
  ==_iff edge.from x,
  ==_iff x edge.from,
)

arrivals-within :
    (refs : List Reference) (x n : Reference) (es : List Edge)
    → IsWithin refs es
    → 0 < arrivals n (dependents x es)
    → 0 < count n refs
unfolding arrivals dependents
arrivals-within refs x n [] h k = absurd (omega arith)
arrivals-within refs x n (edge ∷ es) h k =
    ground (arith, arrivals-within refs x n es h.1, ==_iff edge.to n)

pub All-dependents :
    (P : Edge → Type 0) (x : Reference) (es : List Edge) → All P es → All P (dependents x es)
unfolding dependents
All-dependents P x [] h = tt
All-dependents P x (edge ∷ es) h = elim (Bool-cases (edge.from == x)) [
  | inl e ↦ rw e (h.0, All-dependents P x es h.1)
  | inr e ↦ rw e (All-dependents P x es h.1)
]

keys-release :
    (refs : List Reference) (es : List Edge) (w : Waiting) (f : List Reference)
    → keys w ≡ refs
    → All (λ edge. 0 < count edge.to refs) es
    → keys (release es w f).0 ≡ refs
unfolding release
keys-release refs [] w f e h = e
keys-release refs (edge ∷ es) w f e h =
    keys-release refs es (put edge.to (get_or w edge.to 0 - 1) w) _
      (keys-put_self edge.to (get_or w edge.to 0 - 1) w known ∙ e) h.1
  where
    known : has edge.to w ≡ true
    known = rw (has-count, e) (ground (arith, h.0))

-- `count n` of the resources that are placed or ready, against those of the manifest.
pub record Inv (refs : List Reference) (edges : List Edge) (waiting : Waiting)
    (ready order : List Reference) : Type 0 where
  pub waits : (n : Reference) → get_or waiting n 0 ≡ awaited order n edges
  pub held :
      (n : Reference)
      → count n order + count n ready ≡ (if eqb (get_or waiting n 0) 0 then count n refs else 0)
  pub sorted : IsOrdered edges [] order
  pub keyed : keys waiting ≡ refs

IsOrdered-snoc :
    (edges : List Edge) (placed order : List Reference) (x : Reference)
    → IsOrdered edges placed order
    → awaited (placed ++ order) x edges ≡ 0
    → IsOrdered edges placed (order ++ x ∷ [])
IsOrdered-snoc edges placed [] x h e = (rw append-nil at e, tt)
IsOrdered-snoc edges placed (n ∷ order) x h e =
    (h.0, IsOrdered-snoc edges (placed ++ n ∷ []) order x h.1 (rw append_assoc e))

module _ (refs : List Reference) (edges : List Edge) (distinct : IsDistinct refs)
    (within : IsWithin refs edges) where
  step-Inv :
      (waiting : Waiting) (next : Reference) (ready order : List Reference)
      → Inv refs edges waiting (next ∷ ready) order
      → Inv refs edges
          (release (dependents next edges) waiting []).0
          (enqueue ready (release (dependents next edges) waiting []).1)
          (order ++ next ∷ [])
  step-Inv waiting next ready order inv = record {
    waits = λ n. omega (
      arith,
      inv.waits n,
      release-counts n (dependents next edges) waiting [],
      awaited-snoc order next n edges fresh,
    );
    held = held';
    sorted =
        IsOrdered-snoc edges [] order next inv.sorted (omega (arith, inv.waits next, zero_count));
    keyed = keys-release refs (dependents next edges) waiting [] inv.keyed (
        All-dependents (λ edge. 0 < count edge.to refs) next edges
          (All-map (λ edge h. h.1) edges within));
  }
    where
      zero_count : get_or waiting next 0 ≡ 0
      zero_count = unfold count in ground (arith, inv.held next, ==_refl next)

      held' :
          (n : Reference)
          → count n (order ++ next ∷ [])
              + count n (enqueue ready (release (dependents next edges) waiting []).1)
            ≡ (if eqb (get_or (release (dependents next edges) waiting []).0 n 0) 0
                then count n refs
                else 0)
      held' n =
          unfold count in
          ground (
            arith,
            inv.held n,
            count-append n order (next ∷ []),
            count-enqueue n ready (release (dependents next edges) waiting []).1,
            release-counts n (dependents next edges) waiting [],
            release-freed n (dependents next edges) waiting [],
            arrivals-within refs next n edges within,
            distinct n,
          )

      fresh : count next order ≡ 0
      fresh = unfold count in ground (arith, inv.held next, ==_refl next, distinct next)

  counts-le :
      (waiting : Waiting) (ready order : List Reference)
      → Inv refs edges waiting ready order
      → length order + length ready ≤ length refs
  counts-le waiting ready order inv = omega (
    arith,
    length-append order ready,
    length-le_of_counts (order ++ ready) refs
        (λ a. ground (arith, inv.held a, count-append a order ready)),
  )

  pub place-Inv :
      (fuel : ℕ) (waiting : Waiting) (ready order : List Reference)
      → Inv refs edges waiting ready order
      → length refs ≤ fuel + length order
      → (w : Waiting) × (o : List Reference) × (place edges fuel waiting ready order ≡ some (w, o))
        × Inv refs edges w [] o
  unfolding place
  place-Inv fuel waiting [] order inv h = (waiting, order, refl, inv)
  place-Inv zero waiting (next ∷ ready) order inv h =
      absurd (omega (arith, counts-le waiting (next ∷ ready) order inv))
  place-Inv (suc fuel) waiting (next ∷ ready) order inv h =
      place-Inv fuel _ _ _ (step-Inv waiting next ready order inv)
        (omega (arith, length-append order (next ∷ [])))

  -- The state in which the loop begins.
  pub start-Inv :
      Inv refs edges
        (count_waiting edges (start_waiting refs))
        (sort_by ref_less (refs_where (eqb 0) (count_waiting edges (start_waiting refs))))
        []
  start-Inv = record {
    waits = λ n. start-counts refs edges n ∙ sym (awaited-nil n edges);
    held = held';
    sorted = tt;
    keyed = keyed';
  }
    where
      keyed' : keys (count_waiting edges (start_waiting refs)) ≡ refs
      keyed' = keys-start refs edges (All-map (λ edge h. h.1) edges within)

      w0 : Waiting
      w0 = count_waiting edges (start_waiting refs)

      held' :
          (n : Reference)
          → count n [] + count n (sort_by ref_less (refs_where (eqb 0) w0))
            ≡ (if eqb (get_or w0 n 0) 0 then count n refs else 0)
      held' n =
          unfold count in
          ground (
            arith,
            sort_by-counts ref_less (refs_where (eqb 0) w0) n,
            count-refs_where (eqb 0) n w0 (λ a. rw keyed' (distinct a)),
            ap (count n) keyed',
          )
