-- ===== src/Graph/Sort/Cycle.antt =====
-- internal/graph/graph.go: the path that describeCycle prints is a cycle of the graph.
use datum.Prelude.{
  ◌==◌, ==_iff, ==_refl, ℕ, zero, suc, ◌+◌, ◌≤◌, ◌<◌, ◌≡◌, ◌≢◌, refl, ap, ◌∙◌, Bool, true, false,
  ◌&&◌, none, some, List, [], ◌∷◌, ◌++◌, any, Bool-cases, Option-cases, ◌⊎◌, inl, inr, length,
  length-le_of_counts, length_of_counts, contains, contains-count, count, count-append, IsDistinct,
  SameCounts, sort_by, sort_by-counts, ltb, eqb, arith, if◌then◌else◌,
}
use datum.Map.{get_or}
use datum.Document.Reference.{Reference, ref_eq, ref_less}
use datum.Graph.{Edge, dependencies}
use datum.Graph.Sort.{
  Waiting, refs_where, first_stuck, follow, describe_cycle, ordered, cyclic, finish, sort,
}
use datum.Graph.Sort.Release.{count-refs_where}
use datum.Graph.Sort.Invariant.{Inv, IsWithin, awaited}
use datum.Graph.Sort.Order.{sort-finish}

-- An edge leads from `a` to `b`.
unfoldable pub linked : Reference → Reference → List Edge → Bool
linked a b = any (λ edge. edge.from == a && edge.to == b)

-- Each element of the path waits for the next one.
abbrev pub IsChain : List Edge → List Reference → Type 0
IsChain edges [] = Unit
IsChain edges (b ∷ []) = Unit
IsChain edges (b ∷ a ∷ path) = (linked a b edges ≡ true) × IsChain edges (a ∷ path)

-- A path along dependencies that ends where it has been before.
pub record IsCycle (edges : List Edge) (path : List Reference) : Type 0 where
  pub front : List Reference
  pub last : Reference
  pub split : path ≡ front ++ last ∷ []
  pub returns : contains front last ≡ true
  pub chain : IsChain edges path

IsChain-snoc :
    (edges : List Edge) (front : List Reference) (b a : Reference)
    → IsChain edges (front ++ b ∷ [])
    → linked a b edges ≡ true
    → IsChain edges ((front ++ b ∷ []) ++ a ∷ [])
IsChain-snoc edges [] b a h e = (e, tt)
IsChain-snoc edges (c ∷ []) b a h e = (h.0, (e, tt))
IsChain-snoc edges (c ∷ d ∷ front) b a h e = (h.0, IsChain-snoc edges (d ∷ front) b a h.1 e)

-- What first_stuck finds is stuck, and `b` waits for it.
first_stuck-some :
    (stuck : List Reference) (b a : Reference) (es : List Edge)
    → first_stuck stuck (dependencies b es) ≡ some a
    → (contains stuck a ≡ true) × (linked a b es ≡ true)
unfolding first_stuck dependencies linked
first_stuck-some stuck b a [] h = cc
first_stuck-some stuck b a (edge ∷ es) h =
    ground (arith, first_stuck-some stuck b a es, ==_refl a, ==_iff edge.to b)

-- It finds nothing only if nothing is awaited.
first_stuck-none :
    (refs stuck placed : List Reference) (b : Reference) (es : List Edge)
    → IsWithin refs es
    → ((m : Reference) → 0 < count m refs → contains placed m ≡ false → contains stuck m ≡ true)
    → first_stuck stuck (dependencies b es) ≡ none
    → awaited placed b es ≡ 0
unfolding first_stuck dependencies awaited
first_stuck-none refs stuck placed b [] within rest h = refl
first_stuck-none refs stuck placed b (edge ∷ es) within rest h =
    ground (arith, first_stuck-none refs stuck placed b es within.1 rest, rest edge.from, within.0)

contains-head : (a : Reference) (l : List Reference) → contains (a ∷ l) a ≡ true
unfolding contains
contains-head a l = ground (arith, ==_refl a)

module _ (edges : List Edge) (stuck : List Reference)
    (waits : (b : Reference)
      → contains stuck b ≡ true
      → first_stuck stuck (dependencies b edges) ≢ none) where
  -- The loop of describeCycle ends, and what it returns is a cycle.
  follow-IsCycle :
      (fuel : ℕ) (seen : List Reference) (current : Reference) (front : List Reference)
      → contains stuck current ≡ true
      → SameCounts seen (front ++ current ∷ [])
      → ((a : Reference) → count a seen ≤ count a stuck)
      → IsChain edges (front ++ current ∷ [])
      → length stuck < fuel + length seen
      → (path : List Reference) × (follow edges stuck fuel seen current (front ++ current ∷ [])
          ≡ some path)
        × IsCycle edges path
  unfolding follow
  follow-IsCycle zero seen current front held same below chain enough =
      absurd (omega (arith, length-le_of_counts seen stuck below))
  follow-IsCycle (suc fuel) seen current front held same below chain enough =
      elim (Option-cases (first_stuck stuck (dependencies current edges))) [
        | inl e ↦ absurd (waits current held e)
        | inr (next, e) ↦
            let (known, link) = first_stuck-some stuck current next edges e in
            let path = (front ++ current ∷ []) ++ next ∷ [] in
            let chain' = IsChain-snoc edges front current next chain link in
            elim (Bool-cases (contains seen next)) [
              | inl again ↦ (
                path,
                rw (e, again, follow),
                record {
                  front = front ++ current ∷ [];
                  last = next;
                  split = refl;
                  returns = ground (
                    arith,
                    contains-count seen next,
                    same next,
                    contains-count (front ++ current ∷ []) next,
                  );
                  chain = chain';
                },
              )
              | inr first ↦
                  let (found, run, cycle) =
                    follow-IsCycle fuel (next ∷ seen) next (front ++ current ∷ []) known
                      (λ a.
                        unfold count in
                        ground (arith, same a, count-append a (front ++ current ∷ []) (next ∷ [])))
                      (λ a.
                        unfold count in
                        ground (
                          arith,
                          below a,
                          ==_iff next a,
                          contains-count seen next,
                          contains-count stuck next,
                        ))
                      chain' (omega arith) in
                  (found, rw (e, first, follow) run, cycle)
            ]
      ]

module _ (refs : List Reference) (edges : List Edge) (distinct : IsDistinct refs)
    (within : IsWithin refs edges) (w : Waiting) (o : List Reference)
    (inv : Inv refs edges w [] o) where
  abbrev left_over : List Reference
  left_over = sort_by ref_less (refs_where (ltb 0) w)

  -- What is left over is what still waits.
  count-left_over :
      (n : Reference) → count n left_over ≡ (if ltb 0 (get_or w n 0) then count n refs else 0)
  count-left_over n = ground (
    arith,
    sort_by-counts ref_less (refs_where (ltb 0) w) n,
    count-refs_where (ltb 0) n w (λ a. rw inv.keyed (distinct a)),
    ap (count n) inv.keyed,
  )

  left_over-waits :
      (b : Reference)
      → contains left_over b ≡ true
      → first_stuck left_over (dependencies b edges) ≢ none
  left_over-waits b held e = ground (
    arith,
    inv.waits b,
    count-left_over b,
    contains-count left_over b,
    first_stuck-none refs left_over o b edges within unplaced e,
  )
    where
      unplaced :
          (m : Reference) → 0 < count m refs → contains o m ≡ false → contains left_over m ≡ true
      unplaced m known absent =
          unfold count in
          ground
            (arith, inv.held m, count-left_over m, contains-count left_over m, contains-count o m)

  nothing_left : left_over ≡ [] → length o ≡ length refs
  nothing_left e =
      length_of_counts o refs
        λ n. unfold count in ground (arith, inv.held n, count-left_over n, ap (count n) e)

  describe_cycle-IsCycle :
      length o ≢ length refs
      → (path : List Reference) × (describe_cycle edges w ≡ some path) × IsCycle edges path
  unfolding describe_cycle count
  describe_cycle-IsCycle short = from_list left_over refl
    where
      from_list :
          (l : List Reference)
          → left_over ≡ l
          → (path : List Reference) × (describe_cycle edges w ≡ some path) × IsCycle edges path
      from_list [] e = absurd (short (nothing_left e))
      from_list (start ∷ rest) e =
          let (path, run, cycle) =
            follow-IsCycle edges left_over left_over-waits (suc (length left_over)) (start ∷ [])
              start [] (ap (λ l. contains l start) e ∙ contains-head start rest) (λ a. refl)
              (λ a. ground (arith, ap (count a) e)) tt (omega arith) in
          (path, rw (e, describe_cycle) (rw e at run), cycle)

  finish-cases :
      (finish edges refs (some (w, o)) ≡ ordered o)
      ⊎ ((path : List Reference) × (finish edges refs (some (w, o)) ≡ cyclic path)
          × IsCycle edges path)
  unfolding finish
  finish-cases = elim (Bool-cases (eqb (length o) (length refs))) [
    | inl same ↦ inl (rw same)
    | inr short ↦
        let (path, run, cycle) = describe_cycle-IsCycle (λ e. ground (arith, e)) in
        inr (path, rw (short, run), cycle)
  ]

-- Of every manifest whose resources are distinct and whose edges join them, sort either returns an order, or reports a path
-- along dependencies that really returns to a resource on it. No other outcome is possible, and its
-- loops end.
pub sort_total :
    (refs : List Reference) (edges : List Edge)
    → IsDistinct refs
    → IsWithin refs edges
    → ((order : List Reference) × (sort edges refs ≡ ordered order))
      ⊎ ((path : List Reference) × (sort edges refs ≡ cyclic path) × IsCycle edges path)
sort_total refs edges distinct within =
    let (w, o, run, inv) = sort-finish refs edges distinct within in
    elim (finish-cases refs edges distinct within w o inv) [
      | inl e ↦ inl (o, run ∙ e)
      | inr (path, e, cycle) ↦ inr (path, run ∙ e, cycle)
    ]
