-- ===== src/Anchor/Guarded.antt =====
-- internal/anchor/anchor.go: which paths checkPath refuses, and what an accepted graph leaves alone.
use datum.Prelude.{
  ◌==◌, ==_iff, ◌≡◌, refl, sym, ◌∙◌, inl, inr, Bool, true, false, ◌||◌, Option-cases, some,
  some_inj, is_some, List, [], ◌∷◌, ◌++◌, All, any, all, and-true, contains, arith,
}
use datum.Text.{Text, text_eq, text_beq, bytes, starts_with}
use datum.Text.Paths.{is_abs, components, clean}
use datum.Document.Reference.{Reference}
use datum.Document.Value.{Value}
use datum.Document.Identity.{target_identity_field, path_type-cases, target_identity}
use datum.Resolve.Manifest.{Resource}
use datum.Graph.{Graph}
use datum.Graph.Build.{built, build}
use datum.Graph.Build.Valid.{build_complete}
use datum.Schema.Validate.{validate_desired}
use datum.Schema.Targets.{validate-target_identity}
use datum.Anchor.{
  ProtectedSet, within, check_files, check_dirs, check_path, check, refuses, path_types,
}
use datum.Anchor.Within.{is_prefix, within-clean}

-- Whether a resource at `target` owns a protected file: the file is at the target or below it.
unfoldable pub owns : List Text → List Text → Bool
unfolding is_prefix components
owns target files = any (λ file. is_prefix target (components file)) files

-- Whether a target lies at, inside or above a protected directory.
unfoldable pub meets : List Text → List Text → Bool
unfolding is_prefix components
meets target dirs =
    any (λ dir. is_prefix target (components dir) || is_prefix (components dir) target) dirs

within_same : (p c : Text) → (p == c) ≡ true → within p c ≡ true
unfolding within
within_same p c h = ground (arith, h)

check_files-owns :
    (target : Text) (files : List Text)
    → is_abs target ≡ true
    → all is_abs files ≡ true
    → is_some (check_files (clean target) files) ≡ owns (components target) files
unfolding check_files owns
check_files-owns target [] h k = refl
check_files-owns target (file ∷ files) h k =
    let parts = and-true (is_abs file) (all is_abs files) k in
    let ih = check_files-owns target files h parts.1 in
    let found = within-clean target file h parts.0 in
    ground (arith, ih, found, within_same (clean target) (clean file))

check_dirs-meets :
    (target : Text) (dirs : List Text)
    → is_abs target ≡ true
    → all is_abs dirs ≡ true
    → is_some (check_dirs (clean target) dirs) ≡ meets (components target) dirs
unfolding check_dirs meets
check_dirs-meets target [] h k = refl
check_dirs-meets target (dir ∷ dirs) h k =
    let parts = and-true (is_abs dir) (all is_abs dirs) k in
    let ih = check_dirs-meets target dirs h parts.1 in
    let below = within-clean target dir h parts.0 in
    let above = within-clean dir target parts.0 h in
    ground (
      arith,
      ih,
      below,
      above,
      ==_iff (clean target) (clean dir),
      within_same (clean target) (clean dir),
    )

is_abs-not_nil : (target : Text) → is_abs target ≡ true → (target == []) ≡ false
unfolding is_abs starts_with text_beq
is_abs-not_nil [] h = cc
is_abs-not_nil (c ∷ s) h = refl

-- checkPath, with text tests on cleaned paths, decides a relation of trees: an absolute target is
-- refused exactly if a protected file is at it or below it, or if it is at, inside or above a
-- protected directory. The protected paths are absolute.
pub check_path-meets :
    (set : ProtectedSet) (target : Text)
    → is_abs target ≡ true
    → all is_abs set.files ≡ true
    → all is_abs set.dirs ≡ true
    → is_some (check_path set target)
      ≡ (owns (components target) set.files || meets (components target) set.dirs)
unfolding check_path
check_path-meets set target h hf hd =
    let files = check_files-owns target set.files h hf in
    let dirs = check_dirs-meets target set.dirs h hd in
    ground (arith, files, dirs, h, is_abs-not_nil target h)

path_types-contains :
    (type_name : Text)
    → target_identity_field type_name ≡ some (bytes "path")
    → contains path_types type_name ≡ true
unfolding contains text_beq
path_types-contains type_name h = elim (path_type-cases type_name h) [
  | inl e ↦ rw e refl
  | inr (inl e) ↦ rw e refl
  | inr (inr e) ↦ rw e refl
]

refuses-check_path :
    (set : ProtectedSet) (ref : Reference) (target : Text) (desired : Value)
    → target_identity_field ref.type ≡ some (bytes "path")
    → refuses set ref target desired ≡ false
    → is_some (check_path set target) ≡ false
unfolding refuses check
refuses-check_path set ref target desired typed h = elim (Option-cases (check_path set target)) [
  | inl e ↦ rw e refl
  | inr (refusal, e) ↦ absurd (ground (arith, h, e, path_types-contains ref.type typed))
]

middle {ℓ κ} :
    {A : Type ℓ} (P : A → Type κ) (before after : List A) (x : A)
    → All P (before ++ x ∷ after)
    → P x
middle P [] after x h = h.0
middle P (y ∷ before) after x h = middle P before after x h.1

-- A file, directory or link of a manifest from which Build makes a graph while Check guards the
-- protected set: if validation accepts what it declares, and the protected paths are absolute, its
-- target has no protected file at it or below it, and is neither at, nor inside, nor above a
-- protected directory.
pub build-meets :
    (set : ProtectedSet) (before after : List Resource) (r : Resource) (g : Graph)
    → all is_abs set.files ≡ true
    → all is_abs set.dirs ≡ true
    → target_identity_field r.ref.type ≡ some (bytes "path")
    → validate_desired r.ref.type r.desired ≡ []
    → build (refuses set) (before ++ r ∷ after) ≡ built g
    → (path : Text) × (target_identity r.ref.type r.ref.name r.desired ≡ some path)
      × (owns (components path) set.files ≡ false)
      × (meets (components path) set.dirs ≡ false)
build-meets set before after r g hf hd typed valid h =
    let admitted =
      (middle _ before after r (build_complete (refuses set) (before ++ r ∷ after) g h).0).0 in
    let target = validate-target_identity r.ref.type r.ref.name r.desired typed valid in
    let same : admitted.target ≡ target.0 = some_inj (sym admitted.identified ∙ target.1) in
    let passed = refuses-check_path set r.ref admitted.target r.desired typed admitted.allowed in
    let both = check_path-meets set target.0 target.2 hf hd in
    let neither : (owns (components target.0) set.files || meets (components target.0) set.dirs)
        ≡ false =
      sym both ∙ rw (sym same) passed in
    (target.0, target.1, ground (arith, neither), ground (arith, neither))
