-- ===== src/Resolve/Host/Complete.antt =====
-- internal/resolve/resolve.go: which resources are in a manifest.
use datum.Prelude.{
  ◌==◌, ==_refl, ◌≡◌, refl, sym, ap, ◌∙◌, inl, inr, Bool, true, false, ◌&&◌, Option-cases, some,
  List, [], ◌∷◌, All, any, count, contains, contains-count, insert_by, sort_by, arith,
  if◌then◌else◌,
}
use datum.Map.{Map, lookup, has, has-lookup}
use datum.Text.{Text, text_eq}
use datum.Document.Reference.{Reference, ref_eq}
use datum.Document.Documents.{HostDocument, Layer, Declared, DocumentSet}
use datum.Matcher.{evaluate}
use datum.Resolve.Manifest.{Resource}
use datum.Resolve.Host.{
  Manifest, ResolveError, Fold, nothing_merged, fold_layers, resources_in, collect_resources,
  resolve_for, resolve_host, host_labels, matched_layers, precedences_of, dirs_of, find_host,
}
use datum.Resolve.Host.Consistent.{
  IsConsistent, declares, declared_in, fold_layers-IsConsistent, fold_layers-has,
}

abbrev pub refs_of : List Resource → List Reference
refs_of [] = []
refs_of (r ∷ rs) = r.ref ∷ refs_of rs

collect_resources-refs_of :
    (dirs : Map Text Text) (state : Fold) (order : List Reference)
    → IsConsistent state
    → All (λ ref. has ref state.merged ≡ true) order
    → refs_of (collect_resources dirs state.merged order).0 ≡ order
unfolding collect_resources
collect_resources-refs_of dirs state [] inv h = refl
collect_resources-refs_of dirs state (ref ∷ order) inv h =
    let rest = (collect_resources dirs state.merged order).0 in
    elim (Option-cases (lookup ref state.merged)) [
      | inl e ↦ absurd (ground (arith, h.0, has-lookup ref state.merged, e))
      | inr (r, e) ↦
          rw (e, collect_resources)
            (ap (λ (first : Reference). first ∷ refs_of rest) (inv.named ref r e)
              ∙ ap (λ (refs : List Reference). ref ∷ refs)
                  (collect_resources-refs_of dirs state order inv h.1))
    ]

every_member :
    (p : Reference → Bool) (refs : List Reference)
    → ((ref : Reference) → contains refs ref ≡ true → p ref ≡ true)
    → All (λ ref. p ref ≡ true) refs
unfolding contains
every_member p [] h = tt
every_member p (r ∷ refs) h =
    (h r (ground (arith, ==_refl r)), every_member p refs (λ ref k. h ref (ground (arith, k))))

count-refs_of_insert :
    (less : Resource → Resource → Bool) (ref : Reference) (r : Resource) (rs : List Resource)
    → count ref (refs_of (insert_by less r rs)) ≡ count ref (r.ref ∷ refs_of rs)
unfolding insert_by count
count-refs_of_insert less ref r [] = refl
count-refs_of_insert less ref r (x ∷ rs) = ground (arith, count-refs_of_insert less ref r rs)

count-refs_of_sort :
    (less : Resource → Resource → Bool) (ref : Reference) (rs : List Resource)
    → count ref (refs_of (sort_by less rs)) ≡ count ref (refs_of rs)
unfolding sort_by count
count-refs_of_sort less ref [] = refl
count-refs_of_sort less ref (r ∷ rs) =
    ground
      (arith, count-refs_of_insert less ref r (sort_by less rs), count-refs_of_sort less ref rs)

-- Whether a layer that applies to the host declares a reference.
abbrev pub declared_for : DocumentSet → HostDocument → Reference → Layer → Bool
declared_for set host ref layer =
    (evaluate layer.matcher (host_labels host)).0
    && any (λ d. d.layer == layer.name && d.ref == ref) set.resources

declares-select :
    (resources : List Declared) (layer : Text) (ref : Reference)
    → declares (resources_in resources layer) ref
      ≡ any (λ d. d.layer == layer && d.ref == ref) resources
unfolding resources_in
declares-select [] layer ref = refl
declares-select (d ∷ ds) layer ref = ground (arith, declares-select ds layer ref)

any-matched_layers :
    (set : DocumentSet) (host : HostDocument) (ref : Reference) (layers : List Layer)
    → any (declared_in set.resources ref) (matched_layers (host_labels host) layers)
      ≡ any (declared_for set host ref) layers
unfolding matched_layers
any-matched_layers set host ref [] = refl
any-matched_layers set host ref (layer ∷ layers) =
    ground
      (arith, any-matched_layers set host ref layers, declares-select set.resources layer.name ref)

nothing_merged-IsConsistent : IsConsistent nothing_merged
unfolding contains has lookup count
nothing_merged-IsConsistent = record {
  same = λ ref. refl;
  named = λ ref r e. absurd (ground (arith, e));
  distinct = λ ref. omega arith;
}

nothing_merged-has : (ref : Reference) → has ref nothing_merged.merged ≡ false
unfolding has
nothing_merged-has ref = refl

-- The state of the fold over the layers of a host.
abbrev folded : DocumentSet → Text → HostDocument → Fold
folded set name host =
    let layers = matched_layers (host_labels host) set.layers in
    fold_layers (precedences_of layers []) name (host_labels host) set.resources layers
      nothing_merged

folded-IsConsistent :
    (set : DocumentSet) (name : Text) (host : HostDocument) → IsConsistent (folded set name host)
folded-IsConsistent set name host =
    let layers = matched_layers (host_labels host) set.layers in
    fold_layers-IsConsistent (precedences_of layers []) name (host_labels host) set.resources layers
      nothing_merged nothing_merged-IsConsistent

count-resolve_for :
    (set : DocumentSet) (name revision : Text) (host : HostDocument) (ref : Reference)
    → count ref (refs_of (resolve_for set name revision host).0.resources)
      ≡ count ref (folded set name host).order
unfolding resolve_for
count-resolve_for set name revision host ref =
    let layers = matched_layers (host_labels host) set.layers in
    let state = folded set name host in
    let inv = folded-IsConsistent set name host in
    let present =
      every_member (λ r. has r state.merged) state.order (λ r e. sym (inv.same r) ∙ e) in
    count-refs_of_sort _ ref (collect_resources (dirs_of layers []) state.merged state.order).0
    ∙ ap (count ref) (collect_resources-refs_of (dirs_of layers []) state state.order inv present)

-- The manifest of a host has exactly the resources that its layers declare, each once: a reference
-- occurs once if a layer whose matcher holds for the host's labels declares it, and not at all
-- otherwise.
pub resolve_host-count :
    (set : DocumentSet) (name revision : Text) (host : HostDocument) (m : Manifest)
    (errs : List ResolveError) (ref : Reference)
    → find_host set.hosts name ≡ some host
    → resolve_host set name revision ≡ some (m, errs)
    → count ref (refs_of m.resources)
      ≡ (if any (declared_for set host ref) set.layers then 1 else 0)
unfolding resolve_host
resolve_host-count set name revision host m errs ref found h =
    let result : resolve_for set name revision host ≡ (m, errs) = ground (arith, found, h) in
    let state = folded set name host in
    let layers = matched_layers (host_labels host) set.layers in
    let inv = folded-IsConsistent set name host in
    let declared : contains state.order ref ≡ any (declared_for set host ref) set.layers =
      inv.same ref
      ∙ (fold_layers-has (precedences_of layers []) name (host_labels host) set.resources layers
            nothing_merged ref
          ∙ ground (arith, nothing_merged-has ref, any-matched_layers set host ref set.layers)) in
    sym (ap (λ (r : Manifest × List ResolveError). count ref (refs_of r.0.resources)) result)
    ∙ (count-resolve_for set name revision host ref
        ∙ ground (arith, declared, contains-count state.order ref, inv.distinct ref))
