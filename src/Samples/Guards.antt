-- ===== src/Samples/Guards.antt =====
-- Accepted files, and a manifest beside Datum's own files.
use datum.Prelude.{
  ◌/◌, ◌%◌, ◌≡◌, refl, true, false, none, some, is_some, [], ◌∷◌, ◌||◌, ◌&&◌, length, ltb, leb, eqb,
  arith, all, sort_by, if◌then◌else◌, is_some,
}
use datum.Map.{get_or, put, lookup, keys, has}
use datum.Text.{Text, text_beq, text_lt, bytes, starts_with}
use datum.Text.Paths.{is_abs, clean, components, before_last_slash, dir_of}
use datum.Document.Reference.{ref_beq, ref_less, ref_string}
use datum.Document.Identity.{target_identity, target_identity_field}
use datum.Document.SafeText.{safe_text}
use datum.Schema.Checks.{
  max_path_length, check_mode, allowed, system_path, privileged_mode, world_writable,
}
use datum.Schema.Validate.{validate_desired}
use datum.Schema.Targets.{validate-target_identity}
use datum.Schema.Modes.{mode_text, check_mode-octal}
use datum.Graph.Build.{built, build, edge_less}
use datum.Graph.Sort.{sort}
use datum.Anchor.{ProtectedSet, ControlPaths, protected_by, check_path, refuses}
use datum.Anchor.Guarded.{owns, meets, check_path-meets, build-meets}
use datum.Samples.Data.{nginx, config, service, no_fields, at_path, resource, manifest, graph}

at_path-accepted : validate_desired (bytes "File") at_path ≡ []
unfolding validate_desired text_beq
at_path-accepted = refl

validate-target_identity_example :
    (path : Text) × (target_identity (bytes "File") (bytes "conf") at_path ≡ some path)
    × (is_abs path ≡ true)
    × (clean path ≡ path)
    × (ltb max_path_length (length path) ≡ false)
    × (safe_text path ≡ none)
unfolding target_identity_field text_beq
validate-target_identity_example =
    validate-target_identity (bytes "File") (bytes "conf") at_path refl at_path-accepted

-- The mode 4755, which sets the setuid bit.
check_mode-octal_example : check_mode at_path (mode_text 4 7 5 5) true ≡ (
    if allowed at_path
    then []
    else if leb 2 4
    then privileged_mode ∷ []
    else if eqb (5 / 2 % 2) 1 && system_path at_path
    then world_writable ∷ []
    else [])
check_mode-octal_example =
    check_mode-octal at_path 4 7 5 5 (omega arith) (omega arith) (omega arith) (omega arith)

abbrev controls : ControlPaths
controls = record {
  signers = bytes "/etc/datum/signers";
  state = bytes "/var/lib/datum";
  credential = [];
  secrets = [];
}

abbrev protected : ProtectedSet
protected = protected_by (λ path. none) none controls

files-is_abs : all is_abs protected.files ≡ true
unfolding is_abs protected_by starts_with text_beq dir_of
files-is_abs = refl

dirs-is_abs : all is_abs protected.dirs ≡ true
unfolding is_abs protected_by starts_with text_beq dir_of before_last_slash clean
dirs-is_abs = refl

-- The parent of the state directory.
check_path-meets_example : is_some (check_path protected (bytes "/var/lib")) ≡ (
    owns (components (bytes "/var/lib")) protected.files
    || meets (components (bytes "/var/lib")) protected.dirs)
unfolding is_abs starts_with
check_path-meets_example =
    check_path-meets protected (bytes "/var/lib") refl files-is_abs dirs-is_abs

build-guarded : build (refuses protected) manifest ≡ built graph
unfolding build sort sort_by put ref_beq text_beq get_or text_lt ref_less ref_string has lookup keys
    edge_less refuses protected_by
build-guarded = refl

build-meets_example :
    (path : Text) × (target_identity (bytes "File") (bytes "conf") at_path ≡ some path)
    × (owns (components path) protected.files ≡ false)
    × (meets (components path) protected.dirs ≡ false)
unfolding target_identity_field text_beq
build-meets_example =
    build-meets protected (resource service no_fields [] (config ∷ []) ∷ [])
      (resource nginx no_fields [] [] ∷ []) (resource config at_path (nginx ∷ []) []) graph
      files-is_abs dirs-is_abs refl at_path-accepted build-guarded
