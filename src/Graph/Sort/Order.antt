-- ===== src/Graph/Sort/Order.antt =====
-- internal/graph/graph.go: what the order that sort returns is, and when it returns one.
use datum.Prelude.{
  ==_iff, ℕ, zero, suc, ◌≤◌, ◌<◌, ◌≡◌, refl, sym, ap, ◌∙◌, true, some, List, [], ◌∷◌, All,
  Bool-cases, inl, inr, length, contains, contains-count, count, IsDistinct, SameCounts,
  SameCounts-of_length, length_of_counts, sort_by, eqb, arith,
}
use datum.Document.Reference.{Reference, ref_eq, ref_less}
use datum.Graph.{Edge}
use datum.Graph.Sort.{Waiting, start_waiting, count_waiting, refs_where, ordered, finish, sort}
use datum.Graph.Sort.Invariant.{Inv, IsOrdered, IsWithin, awaited, start-Inv, place-Inv}

module _ (refs : List Reference) (edges : List Edge) (distinct : IsDistinct refs)
    (within : IsWithin refs edges) where
  -- The loop of sort ends, in a state with nothing ready.
  pub sort-finish :
      (w : Waiting) × (o : List Reference) × (sort edges refs ≡ finish edges refs (some (w, o)))
      × Inv refs edges w [] o
  unfolding sort
  sort-finish =
      let w0 = count_waiting edges (start_waiting refs) in
      let (w, o, e, inv) =
        place-Inv refs edges distinct within (length refs) w0
          (sort_by ref_less (refs_where (eqb 0) w0)) [] (start-Inv refs edges distinct within)
          (omega arith) in
      (w, o, ap (finish edges refs) e, inv)

  placed-le :
      (w : Waiting) (o : List Reference)
      → Inv refs edges w [] o
      → (a : Reference) → count a o ≤ count a refs
  placed-le w o inv a = unfold count in ground (arith, inv.held a)

  finish-ordered :
      (w : Waiting) (o order : List Reference)
      → Inv refs edges w [] o
      → finish edges refs (some (w, o)) ≡ ordered order
      → (length o ≡ length refs) × (o ≡ order)
  unfolding finish
  finish-ordered w o order inv e = ground arith

-- Of distinct resources and edges between them, an order that sort returns holds each resource once,
-- and each of them stands behind everything that it waits for.
pub sort-IsOrdered :
    (refs : List Reference) (edges : List Edge) (order : List Reference)
    → IsDistinct refs
    → IsWithin refs edges
    → sort edges refs ≡ ordered order
    → SameCounts order refs × IsOrdered edges [] order
sort-IsOrdered refs edges order distinct within e =
    let (w, o, run, inv) = sort-finish refs edges distinct within in
    let (same, eq) = finish-ordered refs edges distinct within w o order inv (sym run ∙ e) in
    (
      rw (← eq) (SameCounts-of_length o refs (placed-le refs edges distinct within w o inv) same),
      rw (← eq) inv.sorted,
    )

-- `rank` puts each resource above everything that it waits for, so no path of edges returns.
abbrev pub IsRanked : (Reference → ℕ) → List Edge → Type 0
IsRanked rank = All (λ edge. rank edge.from < rank edge.to)

-- Nothing is awaited where everything of lower rank is placed.
awaited-ranked :
    (refs placed : List Reference) (rank : Reference → ℕ) (n : Reference) (es : List Edge)
    → IsWithin refs es
    → IsRanked rank es
    → ((m : Reference) → rank m < rank n → 0 < count m refs → contains placed m ≡ true)
    → awaited placed n es ≡ 0
unfolding awaited
awaited-ranked refs placed rank n [] within ranked below = refl
awaited-ranked refs placed rank n (edge ∷ es) within ranked below = ground (
  arith,
  awaited-ranked refs placed rank n es within.1 ranked.1 below,
  below edge.from,
  within.0,
  ranked.0,
  ==_iff edge.to n,
)

module _ (refs : List Reference) (edges : List Edge) (distinct : IsDistinct refs)
    (within : IsWithin refs edges) (rank : Reference → ℕ) (ranked : IsRanked rank edges)
    (w : Waiting) (o : List Reference) (inv : Inv refs edges w [] o) where
  all_placed : (k : ℕ) (n : Reference) → rank n < k → 0 < count n refs → contains o n ≡ true
  unfolding count
  all_placed zero n h held = absurd (omega arith)
  all_placed (suc k) n h held =
      let none_awaited =
        awaited-ranked refs o rank n edges within ranked
          (λ m lower known. all_placed k m (omega arith) known) in
      ground (arith, inv.held n, inv.waits n, none_awaited, contains-count o n)

  all_counted : SameCounts o refs
  unfolding count
  all_counted n = elim (Bool-cases (contains refs n)) [
    | inl known ↦
        let held : 0 < count n refs = ground (arith, contains-count refs n) in
        ground
          (arith, inv.held n, all_placed (suc (rank n)) n (omega arith) held, contains-count o n)
    | inr unknown ↦ ground (arith, inv.held n, contains-count refs n)
  ]

  finish-ranked : finish edges refs (some (w, o)) ≡ ordered o
  unfolding finish
  finish-ranked = ground (arith, length_of_counts o refs all_counted)

-- A manifest without a cycle is ordered: of distinct resources and edges between them, sort returns
-- an order if the resources can be ranked so that each one stands above everything that it waits for.
pub sort-ranked :
    (refs : List Reference) (edges : List Edge) (rank : Reference → ℕ)
    → IsDistinct refs
    → IsWithin refs edges
    → IsRanked rank edges
    → (order : List Reference) × (sort edges refs ≡ ordered order)
sort-ranked refs edges rank distinct within ranked =
    let (w, o, run, inv) = sort-finish refs edges distinct within in
    (o, run ∙ finish-ranked refs edges distinct within rank ranked w o inv)
