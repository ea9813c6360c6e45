-- ===== src/Discover/Collect.antt =====
-- internal/discover/discover.go: the documents of the files make one set, and every resource gets
-- its nearest layer.
pub mod Nearest
use datum.Prelude.{
  Eq, ◌==◌, ℕ, zero, suc, Bool, true, false, not, ◌&&◌, ◌||◌, Option, none, some, ◌⊎◌, inl, inr,
  List, [], ◌∷◌, ◌++◌, length, contains, sort_by, if◌then◌else◌,
}
use datum.Prelude.Int.{ℤ, ltb_ℤ, leb_ℤ}
use datum.Map.{Map, lookup, put}
use datum.Text.{Text, text_eq, text_lt, bytes, starts_with}
use datum.Text.Paths.{before_last_slash, dir_of}
use datum.Document.Reference.{Reference}
use datum.Document.Documents.{Fleet, HostDocument, Layer, Declared, DocumentSet}
use datum.Resolve.Manifest.{Position}
use datum.Discover.Glob.{excluded}

-- document.Parsed
pub record Parsed : Type 0 where
  pub fleets : List Fleet
  pub hosts : List HostDocument
  pub layers : List Layer
  pub resources : List Declared

pub data DiscoverError : Type 0 where
  parse_error : Position → Text → DiscoverError
  two_layers : Position → Text → Text → DiscoverError
  no_layer : Position → Reference → DiscoverError

-- What findFleetRoot reports.
pub data RootError : Type 0 where
  no_fleet : RootError
  many_fleets : List Text → RootError

-- skipDir
unfoldable pub skip_dir : Text → Bool
unfolding contains
skip_dir name =
    contains
      (bytes ".git"
        ∷ bytes ".github"
        ∷ bytes "node_modules"
        ∷ bytes "site"
        ∷ bytes ".venv"
        ∷ bytes ".cache"
        ∷ bytes "bin"
        ∷ [])
      name

-- relDir; the separator is a slash
unfoldable pub rel_dir : Text → Text
rel_dir dir = if dir == bytes "." then [] else dir

abbrev fleets_in : Text → List Fleet → List (Text × Fleet)
fleets_in file [] = []
fleets_in file (fleet ∷ fleets) = (file, fleet) ∷ fleets_in file fleets

-- The first loop of findFleetRoot.
unfoldable pub all_fleets : List (Text × Parsed) → List (Text × Fleet)
all_fleets [] = []
all_fleets ((file, out) ∷ files) = fleets_in file out.fleets ++ all_fleets files

abbrev files_of : List (Text × Fleet) → List Text
files_of [] = []
files_of ((file, fleet) ∷ all) = file ∷ files_of all

-- The switch of findFleetRoot.
unfoldable pub one_fleet : List (Text × Fleet) → (Text × Fleet) ⊎ RootError
unfolding dir_of
one_fleet [] = inr no_fleet
one_fleet ((file, fleet) ∷ []) = inl (dir_of file, fleet)
one_fleet (first ∷ second ∷ all) = inr (many_fleets (files_of (first ∷ second ∷ all)))

-- findFleetRoot
unfoldable pub find_fleet_root : List (Text × Parsed) → (Text × Fleet) ⊎ RootError
unfolding all_fleets sort_by one_fleet
find_fleet_root parsed = one_fleet (sort_by (λ a b. text_lt a.0 b.0) (all_fleets parsed))

abbrev at_file : Text → Position → Position
at_file rel p = record p { file = rel }

abbrev host_at : Text → List HostDocument → List HostDocument
host_at rel [] = []
host_at rel (h ∷ hs) = record h { position = at_file rel h.position } ∷ host_at rel hs

abbrev layers_at : Text → Text → List Layer → List Layer
layers_at rel dir [] = []
layers_at rel dir (l ∷ ls) =
    record l { position = at_file rel l.position; dir = dir } ∷ layers_at rel dir ls

abbrev resources_at : Text → List Declared → List Declared
resources_at rel [] = []
resources_at rel (r ∷ rs) = record r { position = at_file rel r.position } ∷ resources_at rel rs

-- collect
unfoldable pub collect_file : DocumentSet → Parsed → Text → DocumentSet
unfolding rel_dir dir_of
collect_file set parsed rel = record set {
  hosts = set.hosts ++ host_at rel parsed.hosts;
  layers = set.layers ++ layers_at rel (rel_dir (dir_of rel)) parsed.layers;
  resources = set.resources ++ resources_at rel parsed.resources;
}

-- retarget
unfoldable pub retarget : List (Position × Text) → Text → List DiscoverError
retarget [] rel = []
retarget ((p, message) ∷ errs) rel = parse_error (at_file rel p) message ∷ retarget errs rel

-- The `less` functions of sortSet.
unfoldable pub layer_less : Layer → Layer → Bool
layer_less a b =
    if not (leb_ℤ a.precedence b.precedence && leb_ℤ b.precedence a.precedence)
    then ltb_ℤ a.precedence b.precedence
    else text_lt a.position.file b.position.file

unfoldable pub declared_less : Declared → Declared → Bool
declared_less a b =
    if not (a.ref.type == b.ref.type)
    then text_lt a.ref.type b.ref.type
    else text_lt a.ref.name b.ref.name

-- sortSet
unfoldable pub sort_set : DocumentSet → DocumentSet
unfolding sort_by layer_less declared_less
sort_set set = record set {
  hosts = sort_by (λ a b. text_lt a.name b.name) set.hosts;
  layers = sort_by layer_less set.layers;
  resources = sort_by declared_less set.resources;
}

-- The loop of nearestLayer, on fuel.
unfoldable pub nearest_from : ℕ → Map Text Layer → Text → Option Layer
unfolding lookup before_last_slash
nearest_from zero by_dir dir = none
nearest_from (suc f) by_dir dir =
    let parent = nearest_from f by_dir (elim (before_last_slash dir) [ none ↦ [] | some p ↦ p ]) in
    elim (lookup dir by_dir) [ some layer ↦ some layer | none ↦ if dir == [] then none else parent ]

-- nearestLayer. A round makes the directory shorter, so the rounds are enough.
unfoldable pub nearest_layer : Map Text Layer → Text → Option Layer
unfolding nearest_from
nearest_layer by_dir dir = nearest_from (suc (length dir)) by_dir dir

-- The first loop of assignLayers.
unfoldable pub layers_by_dir : List Layer → Map Text Layer → Map Text Layer × List DiscoverError
unfolding lookup put
layers_by_dir [] by_dir = (by_dir, [])
layers_by_dir (layer ∷ layers) by_dir =
    let kept = layers_by_dir layers by_dir in
    let added = layers_by_dir layers (put layer.dir layer by_dir) in
    elim (lookup layer.dir by_dir) [
      | some existing ↦ (kept.0, two_layers layer.position existing.name layer.name ∷ kept.1)
      | none ↦ added
    ]

-- The second loop of assignLayers.
unfoldable pub assign : Map Text Layer → List Declared → List Declared × List DiscoverError
unfolding nearest_layer rel_dir dir_of
assign by_dir [] = ([], [])
assign by_dir (r ∷ rs) =
    let (more, errs) = assign by_dir rs in
    elim (nearest_layer by_dir (rel_dir (dir_of r.position.file))) [
      | none ↦ (r ∷ more, no_layer r.position r.ref ∷ errs)
      | some layer ↦ (record r { layer = layer.name; layer_dir = layer.dir } ∷ more, errs)
    ]

-- assignLayers
unfoldable pub assign_layers : DocumentSet → DocumentSet × List DiscoverError
unfolding layers_by_dir assign
assign_layers set =
    let (by_dir, clashes) = layers_by_dir set.layers [] in
    let (resources, errs) = assign by_dir set.resources in
    (record set { resources = resources }, clashes ++ errs)

-- The second loop of Walk: `relative` is filepath.Rel to the fleet's root, which may fail, and
-- `match_segment` filepath.Match.
module _ (match_segment : Text → Text → Bool) (relative : Text → Option Text) where
  unfoldable pub gather :
      List (Text × Parsed × List (Position × Text))
      → DocumentSet × List DiscoverError
      → Option (DocumentSet × List DiscoverError)
  unfolding starts_with excluded collect_file retarget
  gather [] state = some state
  gather ((file, parsed, problems) ∷ files) (set, errs) = elim (relative file) [
    | none ↦ none
    | some rel ↦ gather files (
        if starts_with rel (bytes "../") || excluded match_segment set.fleet.exclude rel
        then (set, errs)
        else (collect_file set parsed rel, errs ++ retarget problems rel))
  ]

-- The end of Walk: the set in order, its layers assigned, and all the errors.
unfoldable pub settle_set : DocumentSet × List DiscoverError → DocumentSet × List DiscoverError
unfolding sort_set assign_layers
settle_set (set, errs) =
    let (assigned, more) = assign_layers (sort_set set) in (assigned, errs ++ more)
