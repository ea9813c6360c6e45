-- ===== src/Resolve/Host.antt =====
-- internal/resolve/resolve.go: the effective manifest of one host.
pub mod Consistent
pub mod Complete
use datum.Prelude.{
  Eq, ◌==◌, ℕ, ltb, Bool, true, false, not, ◌&&◌, ◌||◌, Option, none, some, List, [], ◌∷◌, ◌++◌,
  length, select, sort_by, contains, take, drop, if◌then◌else◌,
}
use datum.Prelude.Int.{ℤ}
use datum.Map.{Map, lookup, put, get_or}
use datum.Text.{Text, text_eq, text_lt, bytes}
use datum.Document.Reference.{Reference, ref_eq, ref_string, ref_less}
use datum.Document.Value
use datum.Document.Value.{Value, from_of}
use datum.Document.Canonical.{canonical}
use datum.Document.Documents.{host_label, HostDocument, Layer, Declared, DocumentSet}
use datum.Matcher.{Reason, evaluate}
use datum.Schema.Rules.{Fault}
use datum.Schema.Validate.{validate_desired}
use datum.Resolve.Manifest.{Position, Used, Resource}
use datum.Resolve.Merge.{Contribution, Conflict, Precedences, stamp, merge, merge_refs}
use datum.Resolve.Substitute.{SubstituteError, Substituter, new_substituter, substitute, used_of}

pub record MatchedLayer : Type 0 where
  pub name : Text
  pub dir : Text
  pub precedence : ℤ
  pub reasons : List Reason

pub record Manifest : Type 0 where
  pub host : Text
  pub revision : Text
  pub layers : List MatchedLayer
  pub resources : List Resource

-- What Host reports; Go adds all of these to one list.
pub data ResolveError : Type 0 where
  substitution : Reference → SubstituteError → ResolveError
  conflicting : Conflict → ResolveError
  both_triggers : Reference → List Text → ResolveError
  invalid : Reference → Fault → ResolveError

-- HostLabels
unfoldable pub host_labels : HostDocument → Map Text Text
unfolding put
host_labels host = put host_label host.name host.labels

-- findHost
unfoldable pub find_host : List HostDocument → Text → Option HostDocument
find_host [] name = none
find_host (host ∷ hosts) name = if host.name == name then some host else find_host hosts name

-- resourcesIn
unfoldable pub resources_in : List Declared → Text → List Declared
resources_in resources layer = select (λ r. r.layer == layer) resources

-- The first loop of Host: the layers that apply.
unfoldable pub matched_layers : Map Text Text → List Layer → List MatchedLayer
unfolding evaluate
matched_layers labels [] = []
matched_layers labels (layer ∷ layers) =
    let more = matched_layers labels layers in
    let (ok, reasons) = evaluate layer.matcher labels in
    if not ok
    then more
    else record {
      name = layer.name;
      dir = layer.dir;
      precedence = layer.precedence;
      reasons = reasons;
    }
      ∷ more

-- The maps precedence and dirs of the same loop.
unfoldable pub precedences_of : List MatchedLayer → Precedences → Precedences
unfolding put
precedences_of [] known = known
precedences_of (layer ∷ layers) known =
    precedences_of layers (put layer.name layer.precedence known)

unfoldable pub dirs_of : List MatchedLayer → Map Text Text → Map Text Text
unfolding put
dirs_of [] known = known
dirs_of (layer ∷ layers) known = dirs_of layers (put layer.name layer.dir known)

unfoldable pub has_used : List Used → Text → Bool
has_used [] key = false
has_used (u ∷ us) key = u.placeholder == key || has_used us key

-- mergeUsed: the loop, where `existing` also tells what was seen, and the sort.
unfoldable pub append_used : List Used → List Used → List Used
unfolding has_used
append_used existing [] = existing
append_used existing (u ∷ incoming) =
    append_used (if has_used existing u.placeholder then existing else existing ++ u ∷ []) incoming

unfoldable pub merge_used : List Used → List Used → List Used
unfolding append_used sort_by
merge_used existing incoming =
    sort_by (λ a b. text_lt a.placeholder b.placeholder) (append_used existing incoming)

-- The variables of the fold: merged, order, the conflicts of the merger, and errs.
pub record Fold : Type 0 where
  pub merged : Map Reference Resource
  pub order : List Reference
  pub conflicts : List Conflict
  pub errs : List ResolveError

abbrev pub nothing_merged : Fold
nothing_merged = record { merged = []; order = []; conflicts = []; errs = [] }

abbrev substitution_errors : Reference → List SubstituteError → List ResolveError
substitution_errors ref [] = []
substitution_errors ref (err ∷ errs) = substitution ref err ∷ substitution_errors ref errs

-- The resource that the first layer gives.
unfoldable pub first_resource : MatchedLayer → Declared → Value → List Used → Resource
unfolding stamp
first_resource layer declared desired used = record {
  ref = declared.ref;
  desired = stamp layer.name desired;
  requires = declared.requires;
  restart_on = declared.restart_on;
  reload_on = declared.reload_on;
  layers = layer.name ∷ [];
  layer_dir = declared.layer_dir;
  used = used;
  position = declared.position;
}

-- A resource of an earlier layer with what a later one changes, from the merged value.
unfoldable pub merged_resource : MatchedLayer → Declared → Value → List Used → Resource → Resource
unfolding merge_refs merge_used
merged_resource layer declared desired used existing = record existing {
  desired = desired;
  requires = merge_refs existing.requires declared.requires;
  restart_on = merge_refs existing.restart_on declared.restart_on;
  reload_on = merge_refs existing.reload_on declared.reload_on;
  layers = existing.layers ++ layer.name ∷ [];
  used = merge_used existing.used used;
}

-- The body of the inner loop of Host.
unfoldable pub fold_resource :
    Precedences → Text → Map Text Text → MatchedLayer → Declared → Fold → Fold
unfolding substitute used_of first_resource merged_resource lookup put merge
fold_resource precedences name labels layer declared state =
    let (desired, sub) = substitute declared.desired (new_substituter name labels) in
    let errs = state.errs ++ substitution_errors declared.ref sub.errs in
    elim (lookup declared.ref state.merged) [
      | none ↦ record {
        merged =
            put declared.ref (first_resource layer declared desired (used_of sub)) state.merged;
        order = state.order ++ declared.ref ∷ [];
        conflicts = state.conflicts;
        errs = errs;
      }
      | some existing ↦
          let (value, more) =
            merge precedences (ref_string declared.ref) existing.desired desired
              (record { layer = layer.name; precedence = layer.precedence }) in
          record {
            merged =
                put declared.ref (merged_resource layer declared value (used_of sub) existing)
                  state.merged;
            order = state.order;
            conflicts = state.conflicts ++ more;
            errs = errs;
          }
    ]

unfoldable pub fold_resources :
    Precedences → Text → Map Text Text → MatchedLayer → List Declared → Fold → Fold
unfolding fold_resource
fold_resources precedences name labels layer [] state = state
fold_resources precedences name labels layer (declared ∷ rest) state =
    fold_resources precedences name labels layer rest
      (fold_resource precedences name labels layer declared state)

unfoldable pub fold_layers :
    Precedences → Text → Map Text Text → List Declared → List MatchedLayer → Fold → Fold
unfolding fold_resources resources_in
fold_layers precedences name labels resources [] state = state
fold_layers precedences name labels resources (layer ∷ layers) state =
    fold_layers precedences name labels resources layers
      (fold_resources precedences name labels layer (resources_in resources layer.name) state)

-- The loop of sourceLayerDir over the fields in pathFields.
unfoldable pub source_dir : Value → Map Text Text → List Text → Text → Text
unfolding Value.lookup from_of lookup
source_dir desired dirs [] fallback = fallback
source_dir desired dirs (field_name ∷ fields) fallback =
    let rest = source_dir desired dirs fields fallback in
    elim (Value.lookup field_name desired) [
      | none ↦ rest
      | some v ↦
          if from_of v == []
          then rest
          else elim (lookup (from_of v) dirs) [ none ↦ rest | some dir ↦ dir ]
    ]

-- sourceLayerDir
unfoldable pub source_layer_dir : Value → Map Text Text → Text → Text
unfolding source_dir
source_layer_dir desired dirs fallback =
    source_dir desired dirs (bytes "source" ∷ bytes "template" ∷ []) fallback

abbrev invalid_errors : Reference → List Fault → List ResolveError
invalid_errors ref [] = []
invalid_errors ref (fault ∷ faults) = invalid ref fault ∷ invalid_errors ref faults

abbrev conflict_errors : List Conflict → List ResolveError
conflict_errors [] = []
conflict_errors (c ∷ cs) = conflicting c ∷ conflict_errors cs

-- What the last loop of Host reports of a merged resource.
unfoldable pub merged_errors : Resource → List ResolveError
unfolding validate_desired
merged_errors r =
    (if ltb 0 (length r.restart_on) && ltb 0 (length r.reload_on)
      then both_triggers r.ref r.layers ∷ []
      else [])
    ++ invalid_errors r.ref (validate_desired r.ref.type r.desired)

-- The last loop of Host.
unfoldable pub collect_resources :
    Map Text Text → Map Reference Resource → List Reference → List Resource × List ResolveError
unfolding lookup source_layer_dir merged_errors
collect_resources dirs merged [] = ([], [])
collect_resources dirs merged (ref ∷ order) =
    let (resources, errs) = collect_resources dirs merged order in
    elim (lookup ref merged) [
      | none ↦ (resources, errs)
      | some r ↦
          let placed = record r { layer_dir = source_layer_dir r.desired dirs r.layer_dir } in
          (placed ∷ resources, merged_errors placed ++ errs)
    ]

-- Host, after the host is found: the manifest and the errors.
unfoldable pub resolve_for : DocumentSet → Text → Text → HostDocument → Manifest × List ResolveError
unfolding host_labels matched_layers precedences_of dirs_of fold_layers collect_resources sort_by
resolve_for set name revision host =
    let labels = host_labels host in
    let layers = matched_layers labels set.layers in
    let state =
      fold_layers (precedences_of layers []) name labels set.resources layers nothing_merged in
    let (resources, errs) = collect_resources (dirs_of layers []) state.merged state.order in
    (
      record {
        host = name;
        revision = revision;
        layers = layers;
        resources = sort_by (λ a b. ref_less a.ref b.ref) resources;
      },
      state.errs ++ (conflict_errors state.conflicts ++ errs),
    )

-- Host; `none` is the error that no document names the host
unfoldable pub resolve_host : DocumentSet → Text → Text → Option (Manifest × List ResolveError)
unfolding find_host resolve_for
resolve_host set name revision = elim (find_host set.hosts name) [
  | none ↦ none
  | some host ↦ some (resolve_for set name revision host)
]

-- The loop of writeRefs.
unfoldable pub refs_text : List Reference → Text
unfolding ref_string
refs_text [] = []
refs_text (ref ∷ []) = ref_string ref
refs_text (ref ∷ next ∷ refs) = ref_string ref ++ (bytes "," ++ refs_text (next ∷ refs))

-- writeRefs
unfoldable pub write_refs : Text → List Reference → Text
unfolding refs_text sort_by ref_less
write_refs name [] = []
write_refs name (ref ∷ refs) =
    bytes " " ++ (name ++ (bytes "[" ++ (refs_text (sort_by ref_less (ref ∷ refs)) ++ bytes "]")))

-- The loop of Digest.
unfoldable pub manifest_text : List Resource → Text
unfolding ref_string canonical write_refs
manifest_text [] = []
manifest_text (r ∷ rs) =
    ref_string r.ref
    ++ (bytes " "
        ++ (canonical r.desired
            ++ (write_refs (bytes "requires") r.requires
                ++ (write_refs (bytes "restartOn") r.restart_on
                    ++ (write_refs (bytes "reloadOn") r.reload_on ++ (10 ∷ manifest_text rs))))))

-- Digest; `sha256_hex` is the SHA-256 sum in hexadecimal digits
unfoldable pub digest : (sha256_hex : Text → Text) → Manifest → Text
unfolding manifest_text
digest sha256_hex m = bytes "sha256:" ++ sha256_hex (manifest_text m.resources)

-- ShortDigest
unfoldable pub short_digest : (sha256_hex : Text → Text) → Manifest → Text
unfolding manifest_text
short_digest sha256_hex m = bytes "sha256:" ++ take 8 (sha256_hex (manifest_text m.resources))
