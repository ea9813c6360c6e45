-- ===== src/Schema/Validate.antt =====
-- internal/schema/validate.go: Validate.
use datum.Prelude.{not, ◌&&◌, none, some, List, [], ◌∷◌, ◌++◌, select, length, ltb, if◌then◌else◌}
use datum.Text.{Text, text_eq}
use datum.Document.Value.{Value, Fields, end, field}
use datum.Schema.Table.{FieldSpec, TypeSpec, spec_of, field_spec}
use datum.Schema.Checks.{Wrong, check_value}
use datum.Schema.Rules.{
  Fault, no_table, not_mapping, unknown_field, wrong_value, missing_field, exclusive,
  missing_when_present, is_wanted, is_set, report_fields, check_type_rules,
}

abbrev pub as_faults : Text → List Wrong → List Fault
as_faults field_name [] = []
as_faults field_name (w ∷ ws) = wrong_value field_name w ∷ as_faults field_name ws

-- The first loop of Validate, over the keys in order, in which the fields stand.
unfoldable pub check_fields : TypeSpec → Value → Fields → List Fault
unfolding field_spec check_value
check_fields spec desired end = []
check_fields spec desired (field key v rest) =
    elim (field_spec spec.fields key) [
      | none ↦ unknown_field key ∷ []
      | some f ↦ as_faults f.name (check_value desired f v)
    ]
    ++ check_fields spec desired rest

-- The second loop.
unfoldable pub check_required : Value → List FieldSpec → List Fault
unfolding is_set
check_required desired [] = []
check_required desired (f ∷ fs) =
    let more = check_required desired fs in
    if f.required && not (is_set desired f.name) then missing_field f.name ∷ more else more

-- The third loop.
unfoldable pub check_groups : Value → List (List Text) → List Fault
unfolding is_set
check_groups desired [] = []
check_groups desired (group ∷ groups) =
    let more = check_groups desired groups in
    let declared = select (is_set desired) group in
    if ltb 1 (length declared) then exclusive declared ∷ more else more

-- Validate, of a mapping.
unfoldable pub validate_fields : Text → TypeSpec → Value → Fields → List Fault
unfolding check_fields check_required check_groups is_wanted report_fields check_type_rules
validate_fields type_name spec desired fields =
    check_fields spec desired fields
    ++ (check_required desired spec.fields
        ++ (check_groups desired spec.at_most_one
            ++ ((if is_wanted desired
                  then report_fields (λ field_name. not (is_set desired field_name))
                      missing_when_present spec.required_when_present
                  else [])
                ++ check_type_rules type_name desired)))

abbrev pub validate_mapping : Text → TypeSpec → Value → List Fault
validate_mapping type_name spec (Value.map fields p) =
    validate_fields type_name spec (Value.map fields p) fields
validate_mapping type_name spec _ = not_mapping ∷ []

-- Validate
unfoldable pub validate_desired : Text → Value → List Fault
unfolding spec_of validate_fields
validate_desired type_name desired = elim (spec_of type_name) [
  | none ↦ no_table ∷ []
  | some spec ↦ validate_mapping type_name spec desired
]
