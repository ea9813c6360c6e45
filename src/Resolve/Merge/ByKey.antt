-- ===== src/Resolve/Merge/ByKey.antt =====
-- internal/resolve/merge.go: maps merge key by key.
use datum.Prelude.{
  ◌==◌, ==_iff, ==_refl, ◌≡◌, refl, subst, sym, ap, ◌∙◌, inl, inr, false, Bool-cases, Option-cases,
  Option, none, some, arith, if◌then◌else◌,
}
use datum.Text.{Text, text_eq}
use datum.Document.Value.{
  IsKeyed, Value, Fields, end, field, field_at, put_field, lookup_step, map, Provenance,
}
use datum.Resolve.Merge.{Contribution, Precedences, stamp, join_field, merge, merge_fields}

pub field_at-put_field :
    (k j : Text) (v : Value) (fields : Fields)
    → field_at j (put_field k v fields) ≡ (if k == j then some v else field_at j fields)
unfolding field_at put_field
field_at-put_field k j v end = refl
field_at-put_field k j v (field i w rest) =
    ground (arith, field_at-put_field k j v rest, ==_iff i k, ==_iff i j, ==_iff k j)

field_at-first : (key : Text) (v : Value) (rest : Fields) → field_at key (field key v rest) ≡ some v
unfolding field_at
field_at-first key v rest = ground (arith, ==_refl key)

field_at-later :
    (key j : Text) (v : Value) (rest : Fields)
    → (key == j) ≡ false
    → field_at j (field key v rest) ≡ field_at j rest
unfolding field_at
field_at-later key j v rest h = ground (arith, h)

-- What one key of the merged map holds, by what the two maps hold there.
unfoldable pub merged_at :
    Precedences → Text → Text → Contribution → Option Value → Option Value → Option Value
merged_at precedences path key from old none = old
merged_at precedences path key from none (some child) = some (stamp from.layer child)
merged_at precedences path key from (some existing) (some child) =
    some (merge precedences (join_field path key) existing child from).0

module _ (precedences : Precedences) (path : Text) (from : Contribution) where
  -- One round of the loop.
  abbrev pub next_out : Text → Value → Fields → Option Value → Fields
  next_out key child out none = put_field key (stamp from.layer child) out
  next_out key child out (some existing) =
      put_field key (merge precedences (join_field path key) existing child from).0 out

  merge_fields-cons :
      (out : Fields) (key : Text) (child : Value) (rest : Fields)
      → (merge_fields precedences path out (field key child rest) from).0
        ≡ (merge_fields precedences path (next_out key child out (field_at key out)) rest from).0
  unfolding merge_fields
  merge_fields-cons out key child rest = elim (Option-cases (field_at key out)) [
    | inl e ↦ ground (arith, e)
    | inr (existing, e) ↦ ground (arith, e)
  ]

  field_at-next_out :
      (key : Text) (child : Value) (out : Fields)
      → field_at key (next_out key child out (field_at key out))
        ≡ merged_at precedences path key from (field_at key out) (some child)
  unfolding merged_at
  field_at-next_out key child out = elim (Option-cases (field_at key out)) [
    | inl e ↦
        ground (arith, e, field_at-put_field key key (stamp from.layer child) out, ==_refl key)
    | inr (existing, e) ↦ ground (
      arith,
      e,
      field_at-put_field key key (merge precedences (join_field path key) existing child from).0
          out,
      ==_refl key,
    )
  ]

  -- The round leaves the other keys as they are.
  pub field_at-next_out_other :
      (key j : Text) (child : Value) (out : Fields)
      → (key == j) ≡ false
      → field_at j (next_out key child out (field_at key out)) ≡ field_at j out
  field_at-next_out_other key j child out h = elim (Option-cases (field_at key out)) [
    | inl e ↦ ground (arith, e, field_at-put_field key j (stamp from.layer child) out, h)
    | inr (existing, e) ↦ ground (
      arith,
      e,
      field_at-put_field key j (merge precedences (join_field path key) existing child from).0 out,
      h,
    )
  ]

  -- What the merged map is to hold at a key.
  abbrev IsMergedAt : Fields → Fields → Text → Type 0
  IsMergedAt out news j =
      field_at j (merge_fields precedences path out news from).0
      ≡ merged_at precedences path j from (field_at j out) (field_at j news)

  first_key :
      (out : Fields) (key : Text) (child : Value) (rest : Fields)
      → field_at key rest ≡ none
      → IsMergedAt (next_out key child out (field_at key out)) rest key
      → IsMergedAt out (field key child rest) key
  unfolding merged_at
  first_key out key child rest absent later =
      ap (field_at key) (merge_fields-cons out key child rest)
      ∙ later
      ∙ ap
          (merged_at precedences path key from
            (field_at key (next_out key child out (field_at key out))))
          absent
      ∙ field_at-next_out key child out
      ∙ ap (merged_at precedences path key from (field_at key out))
          (sym (field_at-first key child rest))

  other_key :
      (out : Fields) (key j : Text) (child : Value) (rest : Fields)
      → (key == j) ≡ false
      → IsMergedAt (next_out key child out (field_at key out)) rest j
      → IsMergedAt out (field key child rest) j
  other_key out key j child rest differs later =
      ap (field_at j) (merge_fields-cons out key child rest)
      ∙ later
      ∙ ap (λ o. merged_at precedences path j from o (field_at j rest))
          (field_at-next_out_other key j child out differs)
      ∙ ap (merged_at precedences path j from (field_at j out))
          (sym (field_at-later key j child rest differs))

  merge_fields-IsMergedAt : (out news : Fields) (j : Text) → IsKeyed news → IsMergedAt out news j
  unfolding merged_at field_at merge_fields
  merge_fields-IsMergedAt out end j keyed = ground arith
  merge_fields-IsMergedAt out (field key child rest) j keyed = elim (Bool-cases (key == j)) [
    | inl e ↦ subst (IsMergedAt out (field key child rest)) ((==_iff key j).0 e) (
        first_key out key child rest keyed.0
          (merge_fields-IsMergedAt (next_out key child out (field_at key out)) rest key keyed.1))
    | inr e ↦
        other_key out key j child rest e
          (merge_fields-IsMergedAt (next_out key child out (field_at key out)) rest j keyed.1)
  ]

-- Merging two maps merges them key by key: a key of one alone keeps the old value or gets the new one
-- with its layer noted, and where both have the key the two values are merged under the path of that
-- key. The keys of the new map are supposed to be distinct.
pub merge-field_at :
    (precedences : Precedences) (path : Text) (olds news : Fields) (p q : Provenance)
    (from : Contribution) (key : Text)
    → IsKeyed news
    → lookup_step key (merge precedences path (map olds p) (map news q) from).0
      ≡ merged_at precedences path key from (field_at key olds) (field_at key news)
unfolding merge lookup_step
merge-field_at precedences path olds news p q from key keyed =
    merge_fields-IsMergedAt precedences path from olds news key keyed
