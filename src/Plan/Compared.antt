-- ===== src/Plan/Compared.antt =====
-- internal/plan/diff.go: what Compare reports.
use datum.Prelude.{
  ◌==◌, ==_iff, ==_refl, ◌≡◌, refl, sym, subst, ap, ◌∙◌, ℕ, zero, suc, ◌+◌, Bool, true, false, not,
  ◌&&◌, ◌||◌, Option, Option-cases, Bool-cases, inl, inr, none, some, List, [], ◌∷◌, ◌++◌, contains,
  count, select, any, sort_by, sort_by-counts, arith, if◌then◌else◌,
}
use datum.Map.{lookup}
use datum.Text.{Text, text_eq, text_beq, text_lt, bytes}
use datum.Document.Reference.{Reference}
use datum.Document.Value.{
  IsKeyed, Value, Fields, end, field, field_at, field_names, value_keys, Provenance, scalar_text,
}
use datum.Document.Canonical.{render}
use datum.Document.Identity.{target_identity_field}
use datum.Provider.{Observation, can_observe, can_correct}
use datum.Plan.{
  FieldDiff, field_or_zero, is_identity, existence_word, comparable, compared, field_diff,
  diff_fields, declared_fields, compare,
}

-- The field names the target: a path, or the id of a repository.
abbrev pub names_target : Text → Text → Bool
names_target type_name name =
    name == bytes "path"
      && (type_name == bytes "File"
          || type_name == bytes "Directory"
          || type_name == bytes "Symlink")
    || name == bytes "id" && type_name == bytes "Repository"

-- The field tells a provider how to act: where a content or a password comes from, how it is
-- checked, and what is allowed or assumed.
abbrev pub steers : Text → Bool
steers name =
    any (λ known. known == name)
      (bytes "source"
        ∷ bytes "template"
        ∷ bytes "secretRef"
        ∷ bytes "passwordRef"
        ∷ bytes "validate"
        ∷ bytes "allowPrivileged"
        ∷ bytes "system"
        ∷ bytes "unsigned"
        ∷ bytes "suite"
        ∷ [])

-- The value of a field `state` says whether the target is there.
abbrev pub says_existence : Text → Value → Bool
says_existence name want =
    name == bytes "state"
    && (scalar_text want == bytes "present" || scalar_text want == bytes "absent")

-- The difference between the declared value and the one that was read, if one was.
abbrev pub difference : Observation → Text → Value → Option Value → List FieldDiff
difference o name want none =
    record {
      name = name;
      desired = render want;
      observed = [];
      missing = true;
      uncorrectable = contains o.uncorrectable name;
    }
    ∷ []
difference o name want (some got) =
    if render want == render got
    then []
    else record {
      name = name;
      desired = render want;
      observed = render got;
      missing = false;
      uncorrectable = contains o.uncorrectable name;
    }
      ∷ []

-- What is to be reported of a field, by the value that is declared for it.
abbrev pub expected : Text → Observation → Text → Option Value → List FieldDiff
expected type_name o name none = []
expected type_name o name (some want) =
    if names_target type_name name
      || steers name
      || says_existence name want
      || contains o.unobservable name
    then []
    else difference o name want (lookup name o.fields)

is_identity-names_target :
    (type_name name : Text)
    → (name == []) ≡ false
    → is_identity type_name name ≡ names_target type_name name
unfolding is_identity target_identity_field text_beq
is_identity-names_target type_name name h = elim (Bool-cases (type_name == bytes "Repository")) [
  | inl e ↦
      subst (λ (t : Text). is_identity t name ≡ names_target t name)
        (sym ((==_iff type_name (bytes "Repository")).0 e)) (ground arith)
  | inr e ↦ ground (arith, e, h)
]

or_false : (b : Bool) → not b ≡ not (b || false)
or_false b = ground arith

comparable-steers :
    (name : Text) (want : Value)
    → comparable name want ≡ not (steers name || says_existence name want)
unfolding comparable existence_word contains text_beq
comparable-steers name want = elim (Bool-cases (name == bytes "state")) [
  | inl e ↦
      subst (λ (n : Text). comparable n want ≡ not (steers n || says_existence n want))
        (sym ((==_iff name (bytes "state")).0 e)) refl
  | inr e ↦ rw e (or_false (steers name))
]

field_diff-difference :
    (desired : Value) (o : Observation) (name : Text)
    → field_diff desired o name
      ≡ difference o name (field_or_zero desired name) (lookup name o.fields)
unfolding field_diff can_correct
field_diff-difference desired o name = elim (Option-cases (lookup name o.fields)) [
  | inl e ↦ ground (arith, e)
  | inr (got, e) ↦ ground (arith, e)
]

-- A field's differences, once for each time that it stands in a list of keys.
abbrev times : ℕ → List FieldDiff → List FieldDiff
times zero ds = []
times (suc n) ds = ds ++ times n ds

suc_one : (n : ℕ) → suc n ≡ 1 + n
suc_one n = omega arith

times_more :
    (again : Bool) (n : ℕ) (ds : List FieldDiff)
    → (if again then ds else []) ++ times n ds ≡ times ((if again then 1 else 0) + n) ds
times_more true n ds = ap (λ (k : ℕ). times k ds) (suc_one n)
times_more false n ds = ap (λ (k : ℕ). times k ds) (omega arith)

times_once : (ds : List FieldDiff) → times 1 ds ≡ ds
times_once [] = refl
times_once (d ∷ ds) = ap (λ ds. d ∷ ds) (times_once ds)

module _ (type_name : Text) (desired : Value) (o : Observation) where
  -- What the loop adds for a field.
  abbrev round : Text → List FieldDiff
  round name = if compared type_name desired o name then field_diff desired o name else []

  select-round :
      (key name : Text)
      → select (λ d. d.name == name) (round key) ≡ (if key == name then round name else [])
  unfolding field_diff
  select-round key name = elim (Bool-cases (key == name)) [
    | inl e ↦ rw e (
        subst (λ (n : Text). select (λ d. d.name == n) (round key) ≡ round n)
          ((==_iff key name).0 e) (ground (arith, ==_refl key)))
    | inr e ↦ ground (arith, e)
  ]

  select-append :
      (name : Text) (xs ys : List FieldDiff)
      → select (λ d. d.name == name) (xs ++ ys)
        ≡ select (λ d. d.name == name) xs ++ select (λ d. d.name == name) ys
  select-append name [] ys = refl
  select-append name (x ∷ xs) ys = ground (arith, select-append name xs ys)

  select-diff_fields :
      (name : Text) (keys : List Text)
      → select (λ d. d.name == name) (diff_fields type_name desired o keys)
        ≡ times (count name keys) (round name)
  unfolding diff_fields count
  select-diff_fields name [] = refl
  select-diff_fields name (key ∷ keys) =
      select-append name (round key) (diff_fields type_name desired o keys)
      ∙ rw (select-round key name, select-diff_fields name keys)
          (times_more (key == name) (count name keys) (round name))

count-field_names :
    (name : Text) (fields : Fields)
    → IsKeyed fields
    → count name (field_names fields) ≡ elim (field_at name fields) [ none ↦ 0 | some v ↦ 1 ]
unfolding field_names count field_at
count-field_names name end h = refl
count-field_names name (field k v rest) h =
    ground (arith, count-field_names name rest h.1, h.0, ==_iff k name)

field_or_zero-at :
    (fields : Fields) (p : Provenance) (name : Text) (want : Value)
    → field_at name fields ≡ some want
    → field_or_zero (Value.map fields p) name ≡ want
unfolding field_or_zero
field_or_zero-at fields p name want e = ground (arith, e)

guarded :
    (target steered there hidden : Bool) (ds : List FieldDiff)
    → (if not (target || not (not (steered || there))) && not hidden then ds else [])
      ≡ (if target || steered || there || hidden then [] else ds)
guarded target steered there hidden ds = ground arith

round-expected :
    (type_name : Text) (fields : Fields) (p : Provenance) (o : Observation) (name : Text)
    (want : Value)
    → (name == []) ≡ false
    → field_at name fields ≡ some want
    → round type_name (Value.map fields p) o name ≡ expected type_name o name (some want)
unfolding compared can_observe
round-expected type_name fields p o name want named e =
    rw
      (
        field_diff-difference (Value.map fields p) o name,
        compared,
        field_or_zero-at fields p name want e,
        is_identity-names_target type_name name named,
        comparable-steers name want,
      )
      (guarded (names_target type_name name) (steers name) (says_existence name want)
        (contains o.unobservable name) (difference o name want (lookup name o.fields)))

-- Compare reports of each field of a map whose keys are distinct, where the field has a name that is
-- not empty, once and with its record, what is expected of it: nothing if the field is not declared,
-- names the target, steers the provider, says whether the target is there, or cannot be observed, nor
-- if the value read has the bytes of the declared one; and else the difference, uncorrectable exactly
-- if the provider says so.
pub compare-expected :
    (ref : Reference) (fields : Fields) (p : Provenance) (o : Observation) (name : Text)
    → IsKeyed fields
    → (name == []) ≡ false
    → select (λ d. d.name == name) (compare ref (Value.map fields p) o).fields
      ≡ expected ref.type o name (field_at name fields)
unfolding compare declared_fields value_keys
compare-expected ref fields p o name keyed named =
    select-diff_fields ref.type (Value.map fields p) o name (declared_fields (Value.map fields p))
    ∙ ap (λ n. times n (round ref.type (Value.map fields p) o name))
        (sort_by-counts text_lt (sort_by text_lt (field_names fields)) name
          ∙ (sort_by-counts text_lt (field_names fields) name
              ∙ count-field_names name fields keyed))
    ∙ elim (Option-cases (field_at name fields)) [
      | inl e ↦ rw e refl
      | inr (want, e) ↦ rw e (
          times_once (round ref.type (Value.map fields p) o name)
          ∙ round-expected ref.type fields p o name want named e)
    ]
