-- ===== src/Schema/Accepted.antt =====
-- internal/schema: what the fields of an accepted desired state hold.
use datum.Prelude.{
  ◌==◌, ==_iff, ◌≡◌, refl, sym, ap, ◌∙◌, inl, inr, true, Bool-cases, some, List, [], ◌∷◌, ◌++◌,
  Option-cases, arith,
}
use datum.Text.{Text, text_eq}
use datum.Document.Value
use datum.Document.Value.{Value, Provenance, Fields, end, field, field_at}
use datum.Schema.Table.{FieldSpec, TypeSpec, spec_of, field_spec}
use datum.Schema.Checks.{Wrong, check_value}
use datum.Schema.Rules.{is_set}
use datum.Schema.Validate.{
  as_faults, check_fields, check_required, validate_fields, validate_mapping, validate_desired,
}

pub nil_of_append {ℓ} : {A : Type ℓ} (xs ys : List A) → xs ++ ys ≡ [] → (xs ≡ []) × (ys ≡ [])
nil_of_append [] ys h = (refl, h)
nil_of_append (x ∷ xs) ys h = cc

as_faults-nil : (key : Text) (ws : List Wrong) → as_faults key ws ≡ [] → ws ≡ []
as_faults-nil key [] h = refl
as_faults-nil key (w ∷ ws) h = cc

-- A field of an accepted mapping is in the table and has a value of its kind.
pub check_fields-field_at :
    (spec : TypeSpec) (desired : Value) (fields : Fields) (key : Text) (v : Value)
    → check_fields spec desired fields ≡ []
    → field_at key fields ≡ some v
    → (f : FieldSpec) × (field_spec spec.fields key ≡ some f) × (check_value desired f v ≡ [])
unfolding check_fields field_at
check_fields-field_at spec desired end key v h e = absurd (ground arith)
check_fields-field_at spec desired (field k w rest) key v h e =
    let parts = nil_of_append _ (check_fields spec desired rest) h in
    elim (Bool-cases (k == key)) [
      | inr other ↦ check_fields-field_at spec desired rest key v parts.1 (ground (arith, e, other))
      | inl here ↦
          let same = (==_iff k key).0 here in
          let value : w ≡ v = ground (arith, e, here) in
          elim (Option-cases (field_spec spec.fields k)) [
            | inl unknown ↦ absurd (ground (arith, parts.0, unknown))
            | inr (f, known) ↦ (
              f,
              rw (sym same) known,
              as_faults-nil f.name (check_value desired f v)
                  (rw (sym value) (ground (arith, parts.0, known))),
            )
          ]
    ]

-- A required field of an accepted mapping is set.
pub check_required-is_set :
    (desired : Value) (fs : List FieldSpec) (key : Text) (f : FieldSpec)
    → check_required desired fs ≡ []
    → field_spec fs key ≡ some f
    → f.required ≡ true
    → is_set desired key ≡ true
unfolding check_required field_spec
check_required-is_set desired [] key f h e r = absurd (ground arith)
check_required-is_set desired (g ∷ fs) key f h e r = elim (Bool-cases (g.name == key)) [
  | inl here ↦
      let same : g ≡ f = ground (arith, e, here) in
      let required : g.required ≡ true = rw same r in
      elim (Bool-cases (is_set desired g.name)) [
        | inl set ↦ rw (sym ((==_iff g.name key).0 here)) set
        | inr unset ↦ absurd (ground (arith, h, required, unset))
      ]
  | inr other ↦
      check_required-is_set desired fs key f (ground (arith, h)) (ground (arith, e, other)) r
]

-- What the loops found in an accepted mapping: nothing.
validate_mapping-nil :
    (type_name : Text) (spec : TypeSpec) (desired : Value)
    → validate_mapping type_name spec desired ≡ []
    → (fields : Fields) × (p : Provenance) × (desired ≡ Value.map fields p)
      × (check_fields spec desired fields ≡ [])
      × (check_required desired spec.fields ≡ [])
unfolding validate_fields
validate_mapping-nil type_name spec (Value.map fields p) h =
    let desired = Value.map fields p in
    let first = nil_of_append (check_fields spec desired fields) _ h in
    let second = nil_of_append (check_required desired spec.fields) _ first.1 in
    (fields, p, refl, first.0, second.0)
validate_mapping-nil type_name spec (Value.scalar s q p) h = cc
validate_mapping-nil type_name spec (Value.list items p) h = cc

validate_desired_known :
    (type_name : Text) (spec : TypeSpec) (desired : Value)
    → spec_of type_name ≡ some spec
    → validate_desired type_name desired ≡ validate_mapping type_name spec desired
unfolding validate_desired
validate_desired_known type_name spec desired e = rw (e, validate_desired) refl

-- A desired state that Validate accepts is a mapping, a field of it is in the table of its type and
-- has a value of its kind.
pub validate-field_at :
    (type_name : Text) (spec : TypeSpec) (desired : Value) (key : Text) (v : Value)
    → spec_of type_name ≡ some spec
    → validate_desired type_name desired ≡ []
    → Value.lookup_step key desired ≡ some v
    → (f : FieldSpec) × (field_spec spec.fields key ≡ some f) × (check_value desired f v ≡ [])
unfolding Value.lookup_step
validate-field_at type_name spec desired key v known h e =
    let parts =
      validate_mapping-nil type_name spec desired
        (sym (validate_desired_known type_name spec desired known) ∙ h) in
    check_fields-field_at spec desired parts.0 key v parts.3
      (sym (ap (Value.lookup_step key) parts.2) ∙ e)

-- A required field of an accepted desired state is set.
pub validate-is_set :
    (type_name : Text) (spec : TypeSpec) (desired : Value) (key : Text) (f : FieldSpec)
    → spec_of type_name ≡ some spec
    → validate_desired type_name desired ≡ []
    → field_spec spec.fields key ≡ some f
    → f.required ≡ true
    → is_set desired key ≡ true
validate-is_set type_name spec desired key f known h e r =
    let parts =
      validate_mapping-nil type_name spec desired
        (sym (validate_desired_known type_name spec desired known) ∙ h) in
    check_required-is_set desired spec.fields key f parts.4 e r
