-- ===== src/Plan.antt =====
-- internal/plan: the comparison of desired and observed state.
pub mod Build
pub mod Compared
use datum.Prelude.{
  Eq, ◌==◌, Bool, true, false, not, ◌&&◌, ◌||◌, Option, none, some, List, [], ◌∷◌, ◌++◌, contains,
  select, sort_by, if◌then◌else◌,
}
use datum.Map.{Map, lookup}
use datum.Text.{Text, text_eq, text_lt, bytes}
use datum.Document.Reference.{Reference}
use datum.Document.Value.{
  Value, plain, Fields, field_at, field_names, value_keys, scalar_text, is_map,
}
use datum.Document.Canonical.{render}
use datum.Document.Identity.{target_identity_field}
use datum.Provider.{Observation, can_observe, can_correct}

pub record FieldDiff : Type 0 where
  pub name : Text
  pub desired : Text
  pub observed : Text
  pub missing : Bool
  pub uncorrectable : Bool

pub record Diff : Type 0 where
  pub ref : Reference
  pub fields : List FieldDiff
  pub exists : Bool
  pub occupied : Text

-- Diff.Correctable
unfoldable pub correctable : List FieldDiff → List FieldDiff
correctable = select (λ d. not d.uncorrectable)

-- Diff.Uncorrectable
unfoldable pub uncorrectable : List FieldDiff → List FieldDiff
uncorrectable = select (λ d. d.uncorrectable)

-- Diff.Differs
abbrev pub differs : List FieldDiff → Bool
differs [] = false
differs (d ∷ ds) = true

-- The keys of the map notComparable.
abbrev pub not_comparable : List Text
not_comparable =
    bytes "source"
    ∷ bytes "template"
    ∷ bytes "secretRef"
    ∷ bytes "passwordRef"
    ∷ bytes "validate"
    ∷ bytes "allowPrivileged"
    ∷ bytes "system"
    ∷ bytes "unsigned"
    ∷ bytes "suite"
    ∷ []

-- existenceWord
unfoldable pub existence_word : Text → Bool
existence_word value = value == bytes "present" || value == bytes "absent"

-- comparable
unfoldable pub comparable : Text → Value → Bool
unfolding existence_word contains scalar_text
comparable name desired =
    if name == bytes "state"
    then not (existence_word (scalar_text desired))
    else not (contains not_comparable name)

-- declaredFields, whose second sort changes nothing
unfoldable pub declared_fields : Value → List Text
unfolding value_keys
declared_fields desired = sort_by text_lt (value_keys desired)

-- desired.Map[field], which is the zero Value where the key is absent
unfoldable pub field_or_zero : Value → Text → Value
unfolding field_at
field_or_zero (Value.map fields p) name = elim (field_at name fields) [
  | none ↦ plain []
  | some v ↦ v
]
field_or_zero _ name = plain []

-- field == identity
unfoldable pub is_identity : Text → Text → Bool
unfolding target_identity_field
is_identity type_name name = elim (target_identity_field type_name) [
  | none ↦ name == []
  | some field ↦ name == field
]

-- A field that Compare looks at.
unfoldable pub compared : Text → Value → Observation → Text → Bool
unfolding is_identity comparable field_or_zero can_observe
compared type_name desired o name =
    not (is_identity type_name name || not (comparable name (field_or_zero desired name)))
    && can_observe o name

-- The end of the loop's body in Compare.
unfoldable pub field_diff : Value → Observation → Text → List FieldDiff
unfolding field_or_zero can_correct render
field_diff desired o name =
    let want = render (field_or_zero desired name) in
    elim (lookup name o.fields) [
      | none ↦
          record {
            name = name;
            desired = want;
            observed = [];
            missing = true;
            uncorrectable = not (can_correct o name);
          }
          ∷ []
      | some got ↦
          if want == render got
          then []
          else record {
            name = name;
            desired = want;
            observed = render got;
            missing = false;
            uncorrectable = not (can_correct o name);
          }
            ∷ []
    ]

-- The loop of Compare.
unfoldable pub diff_fields : Text → Value → Observation → List Text → List FieldDiff
unfolding compared field_diff
diff_fields type_name desired o [] = []
diff_fields type_name desired o (name ∷ rest) =
    (if compared type_name desired o name then field_diff desired o name else [])
    ++ diff_fields type_name desired o rest

-- Compare
unfoldable pub compare : Reference → Value → Observation → Diff
unfolding diff_fields declared_fields
compare ref desired o = record {
  ref = ref;
  fields = diff_fields ref.type desired o (declared_fields desired);
  exists = o.exists;
  occupied = o.found;
}
