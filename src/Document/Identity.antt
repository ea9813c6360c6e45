-- ===== src/Document/Identity.antt =====
-- internal/document/identity.go and domains.go: what a type manages, and how types are grouped.
use datum.Prelude.{
  ◌==◌, ==_iff, ◌≡◌, ◌⊎◌, inl, inr, Bool-cases, not, ◌||◌, Option, none, some, [], arith,
  if◌then◌else◌,
}
use datum.Text.{Text, text_eq, bytes}
use datum.Document.Value.{Value, lookup, is_scalar, scalar_text}

-- TargetIdentityField: a lookup in the map targetIdentityField
unfoldable pub target_identity_field : Text → Option Text
target_identity_field type_name =
    if type_name == bytes "File"
    then some (bytes "path")
    else if type_name == bytes "Directory"
    then some (bytes "path")
    else if type_name == bytes "Symlink"
    then some (bytes "path")
    else if type_name == bytes "Repository"
    then some (bytes "id")
    else none

-- The types whose target is a path.
pub path_type-cases :
    (type_name : Text)
    → target_identity_field type_name ≡ some (bytes "path")
    → (type_name ≡ bytes "File") ⊎ ((type_name ≡ bytes "Directory") ⊎ (type_name ≡ bytes "Symlink"))
unfolding target_identity_field
path_type-cases type_name h = elim (Bool-cases (type_name == bytes "File")) [
  | inl e ↦ inl ((==_iff type_name (bytes "File")).0 e)
  | inr no_file ↦ elim (Bool-cases (type_name == bytes "Directory")) [
    | inl e ↦ inr (inl ((==_iff type_name (bytes "Directory")).0 e))
    | inr no_directory ↦ elim (Bool-cases (type_name == bytes "Symlink")) [
      | inl e ↦ inr (inr ((==_iff type_name (bytes "Symlink")).0 e))
      | inr no_link ↦ absurd (ground (arith, h, no_file, no_directory, no_link))
    ]
  ]
]

-- The scalar that names the target, if there is one and it is not empty.
unfoldable pub identity_text : Option Value → Option Text
unfolding is_scalar scalar_text
identity_text none = none
identity_text (some v) =
    if not (is_scalar v) || scalar_text v == [] then none else some (scalar_text v)

-- TargetIdentity; `none` is the error
unfoldable pub target_identity : Text → Text → Value → Option Text
unfolding target_identity_field identity_text lookup
target_identity type_name name desired = elim (target_identity_field type_name) [
  | none ↦ some name
  | some field ↦ identity_text (lookup field desired)
]

pub data Domain : Type 0 where
  core identity runtime kernel : Domain

-- DomainOf: a lookup in the map domainOf
unfoldable pub domain_of : Text → Option Domain
domain_of type_name =
    if type_name == bytes "Package"
    then some core
    else if type_name == bytes "Repository"
    then some core
    else if type_name == bytes "File"
    then some core
    else if type_name == bytes "Directory"
    then some core
    else if type_name == bytes "Symlink"
    then some core
    else if type_name == bytes "User"
    then some identity
    else if type_name == bytes "Group"
    then some identity
    else if type_name == bytes "Service"
    then some runtime
    else if type_name == bytes "Sysctl"
    then some kernel
    else none
