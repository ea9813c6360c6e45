-- ===== src/Schema/Rules.antt =====
-- internal/schema/rules.go: the rules that need more than one field.
use datum.Prelude.{◌==◌, Bool, true, false, not, ◌&&◌, none, some, List, [], ◌∷◌, if◌then◌else◌}
use datum.Text.{Text, text_eq, bytes}
use datum.Document.Value
use datum.Document.Value.{Value, is_scalar, scalar_text}
use datum.Schema.Checks.{Wrong}

-- What Validate reports of a resource.
pub data Fault : Type 0 where
  no_table not_mapping : Fault
  unknown_field : Text → Fault
  wrong_value : Text → Wrong → Fault
  missing_field : Text → Fault
  exclusive : List Text → Fault
  missing_when_present : Text → Fault
  no_key key_and_unsigned : Fault
  absent_but_sets : Text → Fault

-- present
unfoldable pub is_wanted : Value → Bool
unfolding Value.lookup scalar_text
is_wanted desired = elim (Value.lookup (bytes "state") desired) [
  | none ↦ true
  | some v ↦ not (scalar_text v == bytes "absent")
]

-- set
unfoldable pub is_set : Value → Text → Bool
unfolding Value.lookup is_scalar scalar_text
is_set desired field_name = elim (Value.lookup field_name desired) [
  | none ↦ false
  | some v ↦ not (is_scalar v && scalar_text v == [])
]

-- The variable unsigned of checkRepository.
unfoldable pub is_unsigned : Value → Bool
unfolding Value.lookup scalar_text
is_unsigned desired = elim (Value.lookup (bytes "unsigned") desired) [
  | none ↦ false
  | some v ↦ scalar_text v == bytes "true"
]

-- checkRepository
unfoldable pub check_repository : Value → List Fault
unfolding is_wanted is_set is_unsigned
check_repository desired =
    if not (is_wanted desired)
    then []
    else if not (is_set desired (bytes "signingKey")) && not (is_unsigned desired)
    then no_key ∷ []
    else if is_set desired (bytes "signingKey") && is_unsigned desired
    then key_and_unsigned ∷ []
    else []

-- The fields that checkFile goes through.
abbrev pub content_fields : List Text
content_fields =
    bytes "content"
    ∷ bytes "source"
    ∷ bytes "template"
    ∷ bytes "secretRef"
    ∷ bytes "owner"
    ∷ bytes "group"
    ∷ bytes "mode"
    ∷ bytes "validate"
    ∷ []

-- A loop that reports each field that passes a test.
unfoldable pub report_fields : (Text → Bool) → (Text → Fault) → List Text → List Fault
report_fields test fault [] = []
report_fields test fault (field_name ∷ rest) =
    let more = report_fields test fault rest in
    if test field_name then fault field_name ∷ more else more

-- checkFile
unfoldable pub check_file : Value → List Fault
unfolding is_wanted is_set report_fields
check_file desired =
    if is_wanted desired then [] else report_fields (is_set desired) absent_but_sets content_fields

-- checkTypeRules
unfoldable pub check_type_rules : Text → Value → List Fault
unfolding check_repository check_file
check_type_rules type_name desired =
    if type_name == bytes "Repository"
    then check_repository desired
    else if type_name == bytes "File"
    then check_file desired
    else []
