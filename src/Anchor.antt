-- ===== src/Anchor.antt =====
-- internal/anchor/anchor.go: desired state may not target Datum's own controls.
pub mod Within
pub mod Guarded
use datum.Prelude.{
  Eq, ◌==◌, Bool, true, false, not, ◌&&◌, ◌||◌, Option, none, some, is_some, List, [], ◌∷◌, ◌++◌,
  contains, if◌then◌else◌,
}
use datum.Text.{Text, text_eq, bytes, starts_with}
use datum.Text.Paths.{is_abs, clean, dir_of}
use datum.Document.Reference.{Reference}
use datum.Document.Value
use datum.Document.Value.{Value, is_scalar, scalar_text}

-- Set
pub record ProtectedSet : Type 0 where
  pub files : List Text
  pub dirs : List Text
  pub agent_package : Text
  pub unit : Text

-- The errors of Check: the protected path, and how the target lies to it.
pub data Refusal : Type 0 where
  targets inside contains_it : Text → Refusal
  own_package own_service : Refusal

-- within
unfoldable pub within : Text → Text → Bool
unfolding starts_with
within parent child =
    if parent == child
    then true
    else if parent == bytes "/"
    then starts_with child parent
    else starts_with child (parent ++ bytes "/")

-- The loop of checkPath over the files, for a cleaned target.
unfoldable pub check_files : Text → List Text → Option Refusal
unfolding within clean
check_files target [] = none
check_files target (file ∷ files) =
    let rest = check_files target files in
    if target == clean file
    then some (targets (clean file))
    else if within target (clean file)
    then some (contains_it (clean file))
    else rest

-- The loop of checkPath over the directories.
unfoldable pub check_dirs : Text → List Text → Option Refusal
unfolding within clean
check_dirs target [] = none
check_dirs target (dir ∷ dirs) =
    let rest = check_dirs target dirs in
    if target == clean dir || within (clean dir) target
    then some (inside (clean dir))
    else if within target (clean dir)
    then some (contains_it (clean dir))
    else rest

-- checkPath
unfoldable pub check_path : ProtectedSet → Text → Option Refusal
unfolding check_files check_dirs is_abs clean
check_path set target =
    if target == [] || not (is_abs target)
    then none
    else elim (check_files (clean target) set.files) [
      | some refusal ↦ some refusal
      | none ↦ check_dirs (clean target) set.dirs
    ]

-- pathTypes
abbrev pub path_types : List Text
path_types = bytes "File" ∷ bytes "Directory" ∷ bytes "Symlink" ∷ []

-- strings.TrimSuffix, for a suffix
unfoldable pub trim_suffix : Text → Text → Text
trim_suffix suffix [] = []
trim_suffix suffix (c ∷ s) =
    let rest = trim_suffix suffix s in if (c ∷ s) == suffix then [] else c ∷ rest

-- The second check of a link: where it points.
unfoldable pub check_link : ProtectedSet → Value → Option Refusal
unfolding check_path Value.lookup is_scalar scalar_text
check_link set desired = elim (Value.lookup (bytes "target") desired) [
  | none ↦ none
  | some to ↦ if is_scalar to then check_path set (scalar_text to) else none
]

-- Check
unfoldable pub check : ProtectedSet → Reference → Text → Value → Option Refusal
unfolding contains check_path check_link trim_suffix
check set ref target desired =
    if contains path_types ref.type
    then elim (check_path set target) [
      | some refusal ↦ some refusal
      | none ↦ if ref.type == bytes "Symlink" then check_link set desired else none
    ]
    else if ref.type == bytes "Package"
    then (if not (set.agent_package == []) && target == set.agent_package
        then some own_package
        else none)
    else if ref.type == bytes "Service"
    then (if not (set.unit == [])
          && (target == set.unit || target == trim_suffix (bytes ".service") set.unit)
        then some own_service
        else none)
    else none

-- What BuildProtecting asks of Check: whether there is an error.
unfoldable pub refuses : ProtectedSet → Reference → Text → Value → Bool
unfolding check
refuses set ref target desired = is_some (check set ref target desired)

-- config.Path
abbrev pub default_config : Text
default_config = bytes "/etc/datum/agent.yaml"

abbrev pub default_name : Text
default_name = bytes "datum"

abbrev pub binary_paths : List Text
binary_paths = bytes "/usr/bin/datum" ∷ bytes "/usr/local/bin/datum" ∷ []

-- The fields of config.Config that For reads: Trust.Signers, State, Source.Credential and
-- Secrets.Path.
pub record ControlPaths : Type 0 where
  pub signers : Text
  pub state : Text
  pub credential : Text
  pub secrets : Text

-- append, unless the path is empty
abbrev pub append_set : List Text → Text → List Text
append_set paths path = if path == [] then paths else paths ++ path ∷ []

-- The executable of the process, after EvalSymlinks where that succeeds.
abbrev pub running_binary : (Text → Option Text) → Option Text → List Text
running_binary eval_symlinks none = []
running_binary eval_symlinks (some self) =
    elim (eval_symlinks self) [ none ↦ self | some resolved ↦ resolved ] ∷ []

-- For, with os.Executable and EvalSymlinks as parameters.
unfoldable pub protected_by : (Text → Option Text) → Option Text → ControlPaths → ProtectedSet
unfolding dir_of
protected_by eval_symlinks executable cfg = record {
  files =
      append_set
        (append_set ((default_config ∷ binary_paths) ++ running_binary eval_symlinks executable)
          cfg.signers)
        cfg.credential;
  dirs = append_set (append_set (dir_of default_config ∷ []) cfg.state) cfg.secrets;
  agent_package = default_name;
  unit = default_name ++ bytes ".service";
}
