-- ===== src/Resolve/Merge/Reported.antt =====
-- internal/resolve/merge.go: the conflicts between two trees of values, by the paths of their keys.
use datum.Prelude.{
  ◌==◌, ==_iff, ◌≡◌, refl, sym, ap, ◌∙◌, inl, inr, Bool, true, false, ◌&&◌, Option, Option-cases,
  none, some, List, [], ◌∷◌, ◌++◌, append_assoc, arith,
}
use datum.Text.{Text, text_eq, text_beq, bytes, join}
use datum.Document.Value.{Value, Fields, end, field, scalar, list, map, field_at, put_field}
use datum.Resolve.Merge.{Contribution, Conflict, Precedences, stamp, join_field, merge}
use datum.Resolve.Merge.ByKey.{next_out, field_at-put_field}
use datum.Resolve.Merge.Winner.{alike, clash}

-- The keys that lead to a value, as a path.
abbrev pub dotted : List Text → Text
dotted keys = join (bytes ".") keys

-- Where two maps have a key in common, both values are maps, down to values that are alike.
unfoldable mutual
  pub alike_values : Value → Value → Bool
  alike_values (map olds p) (map news q) = alike_fields olds news
  alike_values (map olds p) (scalar text quoted q) = false
  alike_values (map olds p) (list items q) = false
  alike_values (scalar text quoted p) new = alike (scalar text quoted p) new
  alike_values (list items p) new = alike (list items p) new

  pub alike_fields : Fields → Fields → Bool
  alike_fields olds end = true
  alike_fields olds (field key child rest) =
      elim (field_at key olds) [ none ↦ true | some existing ↦ alike_values existing child ]
      && alike_fields olds rest

-- No key stands twice in a map, however deep.
unfoldable mutual
  pub AllKeyed : Value → Type 0
  AllKeyed (map fields p) = KeyedFields fields
  AllKeyed (scalar text quoted p) = Unit
  AllKeyed (list items p) = Unit

  pub KeyedFields : Fields → Type 0
  KeyedFields end = Unit
  KeyedFields (field key v rest) = (field_at key rest ≡ none) × AllKeyed v × KeyedFields rest

-- The conflicts between two values to which the keys lead: those of the values of each key that both
-- maps have, in the order of the new map.
unfoldable mutual
  pub reported : Precedences → List Text → Value → Value → Contribution → List Conflict
  reported precedences keys (map olds p) (map news q) from =
      reported_fields precedences keys olds news from
  reported precedences keys (map olds p) (scalar text quoted q) from = []
  reported precedences keys (map olds p) (list items q) from = []
  reported precedences keys (scalar text quoted p) new from =
      clash precedences (dotted keys) (scalar text quoted p) new from
  reported precedences keys (list items p) new from =
      clash precedences (dotted keys) (list items p) new from

  pub reported_fields : Precedences → List Text → Fields → Fields → Contribution → List Conflict
  reported_fields precedences keys olds end from = []
  reported_fields precedences keys olds (field key child rest) from =
      let more = reported_fields precedences keys olds rest from in
      elim (field_at key olds) [
        | none ↦ more
        | some existing ↦ reported precedences (keys ++ key ∷ []) existing child from ++ more
      ]

dotted-cons_append :
    (root : Text) (keys : List Text) (key : Text)
    → dotted (root ∷ (keys ++ key ∷ [])) ≡ dotted (root ∷ keys) ++ bytes "." ++ key
unfolding join
dotted-cons_append root [] key = refl
dotted-cons_append root (k ∷ keys) key =
    ap (λ (t : Text). root ++ bytes "." ++ t) (dotted-cons_append k keys key) ∙ simp append_assoc

dotted_named :
    (root : Text) (keys : List Text) → (root == []) ≡ false → (dotted (root ∷ keys) == []) ≡ false
unfolding join text_beq
dotted_named [] keys h = absurd (ground (arith, h))
dotted_named (c ∷ root) [] h = refl
dotted_named (c ∷ root) (k ∷ keys) h = refl

pub join_field-dotted :
    (root : Text) (keys : List Text) (key : Text)
    → (root == []) ≡ false
    → join_field (dotted (root ∷ keys)) key ≡ dotted (root ∷ (keys ++ key ∷ []))
unfolding join_field
join_field-dotted root keys key h =
    rw (dotted_named root keys h) (sym (dotted-cons_append root keys key))

field_at-none_first :
    (key j : Text) (child : Value) (rest : Fields)
    → field_at key (field j child rest) ≡ none
    → (key == j) ≡ false
unfolding field_at
field_at-none_first key j child rest h = ground (arith, h, ==_iff key j, ==_iff j key)

field_at-none_later :
    (key j : Text) (child : Value) (rest : Fields)
    → field_at key (field j child rest) ≡ none
    → field_at key rest ≡ none
unfolding field_at
field_at-none_later key j child rest h = ground (arith, h)

field_at-put_other :
    (k j : Text) (v : Value) (fields : Fields)
    → (k == j) ≡ false
    → field_at j (put_field k v fields) ≡ field_at j fields
field_at-put_other k j v fields h = field_at-put_field k j v fields ∙ rw h refl

module _ (precedences : Precedences) (from : Contribution) where
  -- The conflicts at one key of the new map.
  abbrev pub reported_at : List Text → Text → Option Value → Value → List Conflict
  reported_at keys key none child = []
  reported_at keys key (some existing) child =
      reported precedences (keys ++ key ∷ []) existing child from

  pub reported_fields-cons :
      (keys : List Text) (key : Text) (child : Value) (olds rest : Fields)
      → reported_fields precedences keys olds (field key child rest) from
        ≡ reported_at keys key (field_at key olds) child
          ++ reported_fields precedences keys olds rest from
  unfolding reported_fields
  reported_fields-cons keys key child olds rest = elim (Option-cases (field_at key olds)) [
    | inl e ↦ rw (reported_fields, e) refl
    | inr (existing, e) ↦ rw (reported_fields, e) refl
  ]

  -- A key that is not among those of the new map does not matter.
  reported_fields-put :
      (keys : List Text) (key : Text) (v : Value) (olds news : Fields)
      → field_at key news ≡ none
      → reported_fields precedences keys (put_field key v olds) news from
        ≡ reported_fields precedences keys olds news from
  unfolding reported_fields field_at
  reported_fields-put keys key v olds end h = refl
  reported_fields-put keys key v olds (field j child rest) h =
      reported_fields-cons keys j child (put_field key v olds) rest
      ∙ rw
          (
            field_at-put_other key j v olds (field_at-none_first key j child rest h),
            reported_fields-put keys key v olds rest (field_at-none_later key j child rest h),
          )
          (sym (reported_fields-cons keys j child olds rest))

  pub reported_fields-next_out :
      (keys : List Text) (path key : Text) (child : Value) (olds rest : Fields)
      → field_at key rest ≡ none
      → reported_fields precedences keys
          (next_out precedences path from key child olds (field_at key olds))
          rest
          from
        ≡ reported_fields precedences keys olds rest from
  reported_fields-next_out keys path key child olds rest h =
      elim (Option-cases (field_at key olds)) [
        | inl e ↦ rw e (reported_fields-put keys key (stamp from.layer child) olds rest h)
        | inr (existing, e) ↦ rw e (
            reported_fields-put keys key
              (merge precedences (join_field path key) existing child from).0 olds rest h)
      ]

abbrev pub alike_at : Option Value → Value → Bool
alike_at none child = true
alike_at (some existing) child = alike_values existing child

pub alike_fields-cons :
    (key : Text) (child : Value) (olds rest : Fields)
    → alike_fields olds (field key child rest)
      ≡ (alike_at (field_at key olds) child && alike_fields olds rest)
unfolding alike_fields
alike_fields-cons key child olds rest = elim (Option-cases (field_at key olds)) [
  | inl e ↦ rw e refl
  | inr (existing, e) ↦ rw e refl
]

pub alike_fields-put :
    (key : Text) (v : Value) (olds news : Fields)
    → field_at key news ≡ none
    → alike_fields (put_field key v olds) news ≡ alike_fields olds news
unfolding alike_fields
alike_fields-put key v olds end h = refl
alike_fields-put key v olds (field j child rest) h =
    alike_fields-cons j child (put_field key v olds) rest
    ∙ rw
        (
          field_at-put_other key j v olds (field_at-none_first key j child rest h),
          alike_fields-put key v olds rest (field_at-none_later key j child rest h),
        )
        (sym (alike_fields-cons j child olds rest))
