-- ===== src/Samples/Graphs.antt =====
-- Orders and graphs of the example manifest.
use datum.Prelude.{
  ◌==◌, ==_iff, ap, contains, contains-count, ℕ, ◌≡◌, refl, ◌⊎◌, true, false, if◌then◌else◌, List,
  [], ◌∷◌, IsDistinct, SameCounts, sort_by, All, count, arith,
}
use datum.Map.{get_or, put, lookup, keys, has}
use datum.Text.{bytes, text_beq, text_lt}
use datum.Document.Reference.{Reference, ref_eq, ref_beq, ref_less, ref_string}
use datum.Graph.{Node, Graph}
use datum.Graph.Sort.{ordered, cyclic, sort}
use datum.Graph.Sort.Invariant.{IsOrdered, IsWithin}
use datum.Graph.Sort.Order.{sort-IsOrdered, sort-ranked}
use datum.Graph.Sort.Cycle.{IsCycle, sort_total}
use datum.Graph.Build.{BuildError, built, rejected, build, edge_less}
use datum.Graph.Build.Edges.{IsProper}
use datum.Graph.Build.Complete.{IsLinked}
use datum.Graph.Build.Admission.{IsAdmitted}
use datum.Graph.Build.Valid.{build-IsOrdered, build-one_owner, build_complete, build_total}
use datum.Samples.Data.{
  nginx, config, service, refs, edges, ring, manifest, allows, graph, resource, no_fields,
}

IsDistinct-cons :
    (x : Reference) (xs : List Reference)
    → contains xs x ≡ false
    → IsDistinct xs
    → IsDistinct (x ∷ xs)
unfolding count
IsDistinct-cons x xs h rest r =
    ground (arith, rest r, ==_iff x r, contains-count xs x, ap (λ y. count y xs))

refs-IsDistinct : IsDistinct refs
unfolding count contains ref_beq text_beq
refs-IsDistinct = IsDistinct-cons nginx (config ∷ service ∷ []) refl (
    IsDistinct-cons config (service ∷ []) refl (IsDistinct-cons service [] refl (λ r. omega arith)))

edges-IsWithin : IsWithin refs edges
unfolding count ref_beq text_beq
edges-IsWithin = ((omega arith, omega arith), ((omega arith, omega arith), tt))

sort-edges : sort edges refs ≡ ordered refs
unfolding sort sort_by put ref_beq text_beq get_or text_lt ref_less ref_string
sort-edges = refl

sort-IsOrdered_example : SameCounts refs refs × IsOrdered edges [] refs
sort-IsOrdered_example = sort-IsOrdered refs edges refs refs-IsDistinct edges-IsWithin sort-edges

-- The package has rank 0, the file 1, and the service 2.
abbrev height : Reference → ℕ
height r = if r == service then 2 else if r == config then 1 else 0

sort-ranked_example : (order : List Reference) × (sort edges refs ≡ ordered order)
unfolding ref_beq text_beq
sort-ranked_example =
    sort-ranked refs edges height refs-IsDistinct edges-IsWithin (omega arith, (omega arith, tt))

ring-IsWithin : IsWithin refs ring
unfolding count ref_beq text_beq
ring-IsWithin = ((omega arith, omega arith), ((omega arith, omega arith), tt))

sort-ring : sort ring refs ≡ cyclic (config ∷ nginx ∷ config ∷ [])
unfolding sort sort_by put ref_beq text_beq get_or text_lt ref_less ref_string
sort-ring = refl

sort_total_example :
    ((order : List Reference) × (sort ring refs ≡ ordered order))
    ⊎ ((path : List Reference) × (sort ring refs ≡ cyclic path) × IsCycle ring path)
sort_total_example = sort_total refs ring refs-IsDistinct ring-IsWithin

build-manifest : build allows manifest ≡ built graph
unfolding build sort sort_by put ref_beq text_beq get_or text_lt ref_less ref_string has lookup keys
    edge_less
build-manifest = refl

abbrev service_node : Node
service_node = record {
  resource = resource service no_fields [] (config ∷ []);
  target = bytes "nginx";
}

build-IsOrdered_example :
    IsDistinct graph.order
    × SameCounts graph.order (keys graph.nodes)
    × IsOrdered graph.edges [] graph.order
    × All (IsProper graph.nodes) graph.edges
build-IsOrdered_example = build-IsOrdered allows manifest graph build-manifest

build-one_owner_example : service ≡ service
unfolding lookup ref_beq text_beq
build-one_owner_example =
    build-one_owner allows manifest graph service service service_node service_node build-manifest
      refl refl refl refl

build_complete_example :
    All (λ r. IsAdmitted allows r × (has r.ref graph.nodes ≡ true)) manifest
    × All (IsLinked graph.edges) manifest
build_complete_example = build_complete allows manifest graph build-manifest

build_total_example :
    ((g : Graph) × (build allows manifest ≡ built g))
    ⊎ ((err : BuildError) × (errs : List BuildError) × (build allows manifest
          ≡ rejected (err ∷ errs)))
build_total_example = build_total allows manifest
