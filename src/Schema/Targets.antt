-- ===== src/Schema/Targets.antt =====
-- internal/schema with internal/document/identity.go: the targets of accepted files, directories
-- and links.
use datum.Prelude.{
  ◌==◌, ◌≡◌, refl, sym, ◌∙◌, inl, inr, true, false, ◌&&◌, none, some, some_inj, [], Option-cases,
  length, ltb, arith,
}
use datum.Text.{Text, text_eq, text_beq, bytes, split, split_parts}
use datum.Text.Paths.{clean, is_abs}
use datum.Map.{lookup}
use datum.Document.Value
use datum.Document.Value.{Value, Values, is_scalar, scalar_text}
use datum.Document.Identity.{target_identity_field, path_type-cases, identity_text, target_identity}
use datum.Document.SafeText.{safe_text}
use datum.Schema.Table.{abs_path, TypeSpec, spec_of, field_spec, needed}
use datum.Schema.Checks.{check_value, check_scalar, check_abs_path, max_path_length}
use datum.Schema.Rules.{is_set}
use datum.Schema.AbsPaths.{check_abs_path-clean}
use datum.Schema.Validate.{validate_desired}
use datum.Schema.Accepted.{validate-field_at, validate-is_set}

abbrev HasPath : Text → Type 0
HasPath type_name =
    (spec : TypeSpec) × (spec_of type_name ≡ some spec)
    × (field_spec spec.fields (bytes "path") ≡ some (needed (bytes "path") abs_path))

file : HasPath (bytes "File")
unfolding spec_of field_spec lookup text_beq
file = (_, refl, refl)

directory : HasPath (bytes "Directory")
unfolding spec_of field_spec lookup text_beq
directory = (_, refl, refl)

symlink : HasPath (bytes "Symlink")
unfolding spec_of field_spec lookup text_beq
symlink = (_, refl, refl)

-- The table of each type with a path begins with the path.
path_table :
    (type_name : Text) → target_identity_field type_name ≡ some (bytes "path") → HasPath type_name
path_table type_name h = elim (path_type-cases type_name h) [
  | inl e ↦ rw e file
  | inr (inl e) ↦ rw e directory
  | inr (inr e) ↦ rw e symlink
]

lookup_path :
    (desired : Value)
    → Value.lookup (bytes "path") desired ≡ Value.lookup_step (bytes "path") desired
unfolding Value.lookup Value.lookup_parts split split_parts
lookup_path desired = ground arith

-- What checkValue accepts for a path.
check_value-path :
    (desired v : Value)
    → check_value desired (needed (bytes "path") abs_path) v ≡ []
    → (is_scalar v ≡ true) × (check_abs_path (scalar_text v) ≡ [])
unfolding check_value check_scalar is_scalar scalar_text
check_value-path desired (Value.scalar s q p) h = (refl, h)
check_value-path desired (Value.list items p) h = cc
check_value-path desired (Value.map fields p) h = cc

-- A field that is set is there, and no empty scalar.
is_set-some :
    (desired : Value) (key : Text)
    → is_set desired key ≡ true
    → (v : Value) × (Value.lookup key desired ≡ some v)
      × ((is_scalar v && scalar_text v == []) ≡ false)
unfolding is_set
is_set-some desired key h = elim (Option-cases (Value.lookup key desired)) [
  | inl e ↦ absurd (ground (arith, h, e))
  | inr (v, e) ↦ (v, e, ground (arith, h, e))
]

-- A file, directory or link that Validate accepts has a target: the declared path, which is
-- absolute, the path that Clean makes of it, no longer than MaxPathLength, and safe text.
pub validate-target_identity :
    (type_name name : Text) (desired : Value)
    → target_identity_field type_name ≡ some (bytes "path")
    → validate_desired type_name desired ≡ []
    → (path : Text) × (target_identity type_name name desired ≡ some path)
      × (is_abs path ≡ true)
      × (clean path ≡ path)
      × (ltb max_path_length (length path) ≡ false)
      × (safe_text path ≡ none)
unfolding target_identity identity_text
validate-target_identity type_name name desired typed h =
    let table = path_table type_name typed in
    let here =
      is_set-some desired (bytes "path")
        (validate-is_set type_name table.0 desired (bytes "path") _ table.1 h table.2 refl) in
    let found =
      validate-field_at type_name table.0 desired (bytes "path") here.0 table.1 h
        (sym (lookup_path desired) ∙ here.1) in
    let checked : check_value desired (needed (bytes "path") abs_path) here.0 ≡ [] =
      rw (some_inj (sym table.2 ∙ found.1)) found.2 in
    let value = check_value-path desired here.0 checked in
    let path = check_abs_path-clean (scalar_text here.0) value.1 in
    let target : target_identity type_name name desired ≡ some (scalar_text here.0) =
      ground (arith, typed, here.1, here.2, value.0) in
    (scalar_text here.0, target, path.0, path.1, path.2, path.3)
