-- ===== src/Resolve/Merge.antt =====
-- internal/resolve/merge.go: the contributions of several layers become one value.
pub mod Refs
pub mod ByKey
pub mod Winner
pub mod Reported
pub mod Conflicts
use datum.Prelude.{
  Eq, ◌==◌, Bool, true, false, not, ◌&&◌, Option, none, some, List, [], ◌∷◌, ◌++◌, contains,
  if◌then◌else◌,
}
use datum.Prelude.Int.{ℤ, leb_ℤ}
use datum.Map.{Map, lookup}
use datum.Text.{Text, text_eq, bytes}
use datum.Document.Reference.{Reference, ref_eq}
use datum.Document.Value.{
  Origin, Provenance, Value, Values, Fields, end, field, scalar, list, map, field_at, put_field,
  from_of,
}
use datum.Document.Canonical.{render}

pub record Contribution : Type 0 where
  pub layer : Text
  pub precedence : ℤ

pub record Conflict : Type 0 where
  pub at : Text
  pub first : Contribution
  pub second : Contribution
  pub first_text : Text
  pub second_text : Text

-- merger.precedence
abbrev pub Precedences : Type 0
Precedences = Map Text ℤ

-- merger.of; `none` is its second result false
unfoldable pub of : Precedences → Value → Option Contribution
unfolding from_of
of precedences v = if from_of v == [] then none else elim (lookup (from_of v) precedences) [
  | none ↦ none
  | some p ↦ some (record { layer = from_of v; precedence = p })
]

abbrev pub with_from : Text → Provenance → Provenance
with_from layer p = record p { from = layer }

-- stamp
unfoldable mutual
  pub stamp : Text → Value → Value
  stamp layer (scalar text q p) = scalar text q (with_from layer p)
  stamp layer (list items p) = list items (with_from layer p)
  stamp layer (map fields p) = map (stamp_fields layer fields) p

  pub stamp_fields : Text → Fields → Fields
  stamp_fields layer end = end
  stamp_fields layer (field k v rest) = field k (stamp layer v) (stamp_fields layer rest)

-- sameValue
unfoldable pub same_value : Value → Value → Bool
unfolding render
same_value a b = render a == render b

-- joinField
unfoldable pub join_field : Text → Text → Text
join_field prefix key = if prefix == [] then key else prefix ++ bytes "." ++ key

-- The field Displaced of a value.
abbrev pub displaced_of : Value → List Origin
displaced_of (scalar text q p) = p.displaced
displaced_of (list items p) = p.displaced
displaced_of (map fields p) = p.displaced

abbrev pub with_displaced : List Origin → Value → Value
with_displaced os (scalar text q p) = scalar text q (record p { displaced = os })
with_displaced os (list items p) = list items (record p { displaced = os })
with_displaced os (map fields p) = map fields (record p { displaced = os })

-- The end of merge, from `out := stamp(new, from)`.
unfoldable pub displace : Value → Value → Contribution → Value
unfolding stamp from_of render
displace old new from =
    with_displaced
      (record {
        layer = if from_of old == [] then bytes "an earlier layer" else from_of old;
        scalar = render old;
      }
        ∷ displaced_of old)
      (stamp from.layer new)

-- previous.precedence == from.precedence
abbrev pub equal_ℤ : ℤ → ℤ → Bool
equal_ℤ a b = leb_ℤ a b && leb_ℤ b a

-- merge, where not both values are maps: the value and the conflicts that are appended.
unfoldable pub replace : Precedences → Text → Value → Value → Contribution → Value × List Conflict
unfolding same_value of displace render
replace precedences path old new from =
    if same_value old new then (old, []) else elim (of precedences old) [
      | none ↦ (displace old new from, [])
      | some previous ↦
          if equal_ℤ previous.precedence from.precedence
          then (
            old,
            record {
              at = path;
              first = previous;
              second = from;
              first_text = render old;
              second_text = render new;
            }
                ∷ [],
          )
          else (displace old new from, [])
    ]

-- merge
unfoldable mutual
  unfolding stamp join_field replace field_at put_field

  pub merge : Precedences → Text → Value → Value → Contribution → Value × List Conflict
  merge precedences path (map olds p) (map news q) from =
      let (fields, conflicts) = merge_fields precedences path olds news from in
      (map fields p, conflicts)
  merge precedences path (map olds p) (scalar text quoted q) from =
      replace precedences path (map olds p) (scalar text quoted q) from
  merge precedences path (map olds p) (list items q) from =
      replace precedences path (map olds p) (list items q) from
  merge precedences path (scalar text quoted p) new from =
      replace precedences path (scalar text quoted p) new from
  merge precedences path (list items p) new from = replace precedences path (list items p) new from

  -- The loop over the keys of the new map.
  pub merge_fields : Precedences → Text → Fields → Fields → Contribution → Fields × List Conflict
  merge_fields precedences path out end from = (out, [])
  merge_fields precedences path out (field key child rest) from = elim (field_at key out) [
    | none ↦ merge_fields precedences path (put_field key (stamp from.layer child) out) rest from
    | some existing ↦
        let (v, here) = merge precedences (join_field path key) existing child from in
        let (fields, more) = merge_fields precedences path (put_field key v out) rest from in
        (fields, here ++ more)
  ]

-- The loops of mergeRefs; `out` holds what was seen.
unfoldable pub append_refs : List Reference → List Reference → List Reference
unfolding contains
append_refs out [] = out
append_refs out (ref ∷ refs) = append_refs (if contains out ref then out else out ++ ref ∷ []) refs

-- mergeRefs
unfoldable pub merge_refs : List Reference → List Reference → List Reference
unfolding append_refs
merge_refs existing incoming = append_refs (append_refs [] existing) incoming
