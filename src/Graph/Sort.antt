-- ===== src/Graph/Sort.antt =====
-- internal/graph/graph.go: sort and describeCycle.
pub mod Release
pub mod Invariant
pub mod Order
pub mod Cycle
use datum.Prelude.{
  Eq, ◌==◌, ℕ, zero, suc, ◌+◌, ◌-◌, Bool, true, false, not, ◌&&◌, Option, none, some, List, [], ◌∷◌,
  ◌++◌, length, select, contains, sort_by, ltb, eqb, if◌then◌else◌,
}
use datum.Map.{Map, get_or, put, keys}
use datum.Document.Reference.{Reference, ref_eq, ref_less}
use datum.Graph.{Edge, dependents, dependencies}

-- waitingFor: how many edges of a resource come from one that is not placed yet
abbrev pub Waiting : Type 0
Waiting = Map Reference ℕ

-- for ref := range g.Nodes { waitingFor[ref] = 0 }
unfoldable pub start_waiting : List Reference → Waiting
start_waiting [] = []
start_waiting (ref ∷ refs) = (ref, 0) ∷ start_waiting refs

-- for _, edge := range g.Edges { waitingFor[edge.To]++ }
unfoldable pub count_waiting : List Edge → Waiting → Waiting
count_waiting [] waiting = waiting
count_waiting (edge ∷ edges) waiting =
    count_waiting edges (put edge.to (get_or waiting edge.to 0 + 1) waiting)

-- The keys whose count passes a test.
unfoldable pub refs_where : (ℕ → Bool) → Waiting → List Reference
refs_where test [] = []
refs_where test ((ref, n) ∷ rest) =
    let more = refs_where test rest in if test n then ref ∷ more else more

-- The loop over the dependents of the resource that was placed. Go's count would go below 0 where
-- this one stays at 0; in both only a count that falls from 1 frees a resource.
unfoldable pub release : List Edge → Waiting → List Reference → Waiting × List Reference
release [] waiting freed = (waiting, freed)
release (edge ∷ edges) waiting freed =
    release edges (put edge.to (get_or waiting edge.to 0 - 1) waiting)
      (if eqb (get_or waiting edge.to 0) 1 then freed ++ edge.to ∷ [] else freed)

-- if len(freed) > 0 { ready = append(ready, freed...); sortRefs(ready) }
unfoldable pub enqueue : List Reference → List Reference → List Reference
enqueue ready [] = ready
enqueue ready (ref ∷ freed) = sort_by ref_less (ready ++ ref ∷ freed)

-- for len(ready) > 0: each round places one resource, and `none` means that the fuel ran out.
unfoldable pub place :
    List Edge → ℕ → Waiting → List Reference → List Reference → Option (Waiting × List Reference)
unfolding release enqueue dependents
place edges fuel waiting [] order = some (waiting, order)
place edges zero waiting (next ∷ ready) order = none
place edges (suc fuel) waiting (next ∷ ready) order =
    let (waiting', freed) = release (dependents next edges) waiting [] in
    place edges fuel waiting' (enqueue ready freed) (order ++ next ∷ [])

-- The first dependency that waits too.
unfoldable pub first_stuck : List Reference → List Edge → Option Reference
unfolding contains
first_stuck stuck [] = none
first_stuck stuck (edge ∷ edges) =
    if contains stuck edge.from then some edge.from else first_stuck stuck edges

-- The loop of describeCycle; `none` means that the fuel ran out.
unfoldable pub follow :
    List Edge
    → List Reference
    → ℕ
    → List Reference
    → Reference
    → List Reference
    → Option (List Reference)
unfolding first_stuck dependencies
follow edges stuck zero seen current path = none
follow edges stuck (suc fuel) seen current path =
    elim (first_stuck stuck (dependencies current edges)) [
      | none ↦ some path
      | some next ↦
          let rest = follow edges stuck fuel (next ∷ seen) next (path ++ next ∷ []) in
          if contains seen next then some (path ++ next ∷ []) else rest
    ]

-- describeCycle
unfoldable pub describe_cycle : List Edge → Waiting → Option (List Reference)
unfolding follow refs_where
describe_cycle edges waiting = elim (sort_by ref_less (refs_where (ltb 0) waiting)) [
  | [] ↦ some []
  | start ∷ rest ↦
      follow edges (start ∷ rest) (suc (length (start ∷ rest))) (start ∷ []) start (start ∷ [])
]

pub data Sorted : Type 0 where
  ordered : List Reference → Sorted
  cyclic : List Reference → Sorted
  out_of_fuel : Sorted

-- The test at the end of sort. `len(g.Nodes)` is the number of keys.
unfoldable pub finish : List Edge → List Reference → Option (Waiting × List Reference) → Sorted
unfolding describe_cycle
finish edges refs none = out_of_fuel
finish edges refs (some (waiting, order)) =
    if eqb (length order) (length refs)
    then ordered order
    else elim (describe_cycle edges waiting) [ none ↦ out_of_fuel | some path ↦ cyclic path ]

-- sort, of the keys of g.Nodes and g.Edges. As many rounds as there are nodes are enough.
unfoldable pub sort : List Edge → List Reference → Sorted
unfolding start_waiting count_waiting refs_where place finish
sort edges refs =
    let waiting = count_waiting edges (start_waiting refs) in
    finish edges refs
      (place edges (length refs) waiting (sort_by ref_less (refs_where (eqb 0) waiting)) [])
