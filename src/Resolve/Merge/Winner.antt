-- ===== src/Resolve/Merge/Winner.antt =====
-- internal/resolve/merge.go: which layer's value stands after a merge.
use datum.Prelude.{
  ==_iff, ◌≡◌, ◌==◌, refl, Bool, true, false, Bool-cases, Option, Option-cases, ◌∙◌, ap, inl, inr,
  ◌||◌, [], ◌∷◌, not, ◌&&◌, none, some, List, arith, if◌then◌else◌,
}
use datum.Text.{Text, text_eq, bytes}
use datum.Document.Value.{Value, scalar, list, map, is_map, is_scalar, from_of, Origin}
use datum.Document.Canonical.{render, canonical}
use datum.Map.{lookup}
use datum.Prelude.Int.{ℤ, pos, negsuc}
use datum.Resolve.Merge.{
  Contribution, Conflict, Precedences, of, equal_ℤ, stamp, same_value, displaced_of, displace,
  replace, merge,
}

-- The layer of a value and what it displaced do not show in its bytes.
render-displace :
    (old new : Value) (from : Contribution)
    → is_map new ≡ false
    → render (displace old new from) ≡ render new
unfolding is_map displace render stamp canonical
render-displace old (scalar text q p) from h = refl
render-displace old (list items p) from h = refl
render-displace old (map fields p) from h = ground arith

-- The layer that a value has on record has the precedence.
abbrev pub recorded_at : Precedences → ℤ → Value → Bool
recorded_at precedences precedence v =
    not (from_of v == [])
    && elim (lookup (from_of v) precedences) [ none ↦ false | some p ↦ equal_ℤ p precedence ]

-- Two layers of one precedence set the value differently.
abbrev pub clashes : Precedences → Value → Value → Contribution → Bool
clashes precedences old new from =
    not (render old == render new) && recorded_at precedences from.precedence old

-- The conflict between two values, if there is one.
abbrev pub clash : Precedences → Text → Value → Value → Contribution → List Conflict
clash precedences path old new from =
    if clashes precedences old new from
    then record {
      at = path;
      first = record { layer = from_of old; precedence = from.precedence };
      second = from;
      first_text = render old;
      second_text = render new;
    }
      ∷ []
    else []

-- The origin of the value that is displaced.
abbrev pub lost : Value → Origin
lost old = record {
  layer = if from_of old == [] then bytes "an earlier layer" else from_of old;
  scalar = render old;
}

abbrev pub same_kind : Bool → Bool → Bool
same_kind true b = b
same_kind false b = not b

-- A map meets only a map, and a scalar that has the bytes of a list does not meet it: in these two
-- cases merge takes no notice of a disagreement.
abbrev pub alike : Value → Value → Bool
alike old new =
    not (is_map old)
    && not (is_map new)
    && (not (render old == render new) || same_kind (is_scalar old) (is_scalar new))

-- What merge is to make of two values that are no maps, if nothing goes by the key.
abbrev pub IsSettled :
    Precedences → Text → Value → Value → Contribution → Value × List Conflict → Type 0
IsSettled precedences path old new from (v, conflicts) =
    (render v ≡ (if clashes precedences old new from then render old else render new))
    × (from_of v ≡ (
        if render old == render new || clashes precedences old new from
        then from_of old
        else from.layer))
    × (displaced_of v ≡ (
        if render old == render new || clashes precedences old new from
        then displaced_of old
        else lost old ∷ displaced_of old))
    × (conflicts ≡ clash precedences path old new from)

from_of-displace :
    (old new : Value) (from : Contribution)
    → is_map new ≡ false
    → (from_of (displace old new from) ≡ from.layer)
      × (displaced_of (displace old new from) ≡ lost old ∷ displaced_of old)
unfolding is_map displace stamp from_of
from_of-displace old (scalar text q p) from h = (refl, refl)
from_of-displace old (list items p) from h = (refl, refl)
from_of-displace old (map fields p) from h = absurd (ground arith)

equal_ℤ-eq : (a b : ℤ) → equal_ℤ a b ≡ true → a ≡ b
equal_ℤ-eq (pos m) (pos n) h = ap pos (ground (arith, h))
equal_ℤ-eq (pos m) (negsuc n) h = absurd (ground (arith, h))
equal_ℤ-eq (negsuc m) (pos n) h = absurd (ground (arith, h))
equal_ℤ-eq (negsuc m) (negsuc n) h = ap negsuc (ground (arith, h))

-- The old value with a conflict.
abbrev kept : Text → Value → Value → Contribution → Contribution → Value × List Conflict
kept path old new from first = (
  old,
  record {
    at = path;
    first = first;
    second = from;
    first_text = render old;
    second_text = render new;
  }
      ∷ [],
)

-- What two values that differ become, by the layer on record.
abbrev settled : Precedences → Text → Value → Value → Contribution → Value × List Conflict
settled precedences path old new from =
    if recorded_at precedences from.precedence old
    then kept path old new from (record { layer = from_of old; precedence = from.precedence })
    else (displace old new from, [])

replace-same :
    (precedences : Precedences) (path : Text) (old new : Value) (from : Contribution)
    → (render old == render new) ≡ true
    → replace precedences path old new from ≡ (old, [])
unfolding replace same_value
replace-same precedences path old new from e = rw e refl

-- The layer on record, by `of`.
of-recorded_at :
    (precedences : Precedences) (precedence : ℤ) (old : Value)
    → recorded_at precedences precedence old ≡ elim (of precedences old) [
      | none ↦ false
      | some previous ↦ equal_ℤ previous.precedence precedence
    ]
unfolding of
of-recorded_at precedences precedence old = elim (Bool-cases (from_of old == [])) [
  | inl no_record ↦ rw no_record refl
  | inr record_there ↦ elim (Option-cases (lookup (from_of old) precedences)) [
    | inl absent ↦ rw (record_there, absent) refl
    | inr (p, found) ↦ rw (record_there, found) refl
  ]
]

of-layer :
    (precedences : Precedences) (old : Value) (previous : Contribution)
    → of precedences old ≡ some previous
    → previous.layer ≡ from_of old
unfolding of
of-layer precedences old previous h = elim (Bool-cases (from_of old == [])) [
  | inl no_record ↦ absurd (ground (arith, h, no_record))
  | inr record_there ↦ elim (Option-cases (lookup (from_of old) precedences)) [
    | inl absent ↦ absurd (ground (arith, h, record_there, absent))
    | inr (p, found) ↦ ground (arith, h, record_there, found)
  ]
]

first-eq :
    (old : Value) (from previous : Contribution)
    → previous.layer ≡ from_of old
    → previous.precedence ≡ from.precedence
    → previous ≡ record { layer = from_of old; precedence = from.precedence }
first-eq old from previous h k = ground (arith, h, k)

known-settled :
    (path : Text) (old new : Value) (from previous : Contribution)
    → previous.layer ≡ from_of old
    → (if equal_ℤ previous.precedence from.precedence
        then kept path old new from previous
        else (displace old new from, []))
      ≡ (if equal_ℤ previous.precedence from.precedence
          then kept path old new from (record { layer = from_of old; precedence = from.precedence })
          else (displace old new from, []))
known-settled path old new from previous h =
    elim (Bool-cases (equal_ℤ previous.precedence from.precedence)) [
      | inl e ↦ rw e (
          ap (kept path old new from)
            (first-eq old from previous h (equal_ℤ-eq previous.precedence from.precedence e)))
      | inr e ↦ rw e refl
    ]

replace-known :
    (precedences : Precedences) (path : Text) (old new : Value) (from : Contribution)
    (o : Option Contribution)
    → (render old == render new) ≡ false
    → of precedences old ≡ o
    → replace precedences path old new from ≡ elim o [
      | none ↦ (displace old new from, [])
      | some previous ↦
          if equal_ℤ previous.precedence from.precedence
          then kept path old new from previous
          else (displace old new from, [])
    ]
unfolding replace same_value
replace-known precedences path old new from o e h = rw (e, h) refl

replace-other :
    (precedences : Precedences) (path : Text) (old new : Value) (from : Contribution)
    → (render old == render new) ≡ false
    → replace precedences path old new from ≡ settled precedences path old new from
replace-other precedences path old new from e = elim (Option-cases (of precedences old)) [
  | inl h ↦
      replace-known precedences path old new from none e h
      ∙ rw (of-recorded_at precedences from.precedence old, h) refl
  | inr (previous, h) ↦
      replace-known precedences path old new from (some previous) e h
      ∙ rw (of-recorded_at precedences from.precedence old, h)
          (known-settled path old new from previous (of-layer precedences old previous h))
]

replace-IsSettled :
    (precedences : Precedences) (path : Text) (old new : Value) (from : Contribution)
    → is_map new ≡ false
    → IsSettled precedences path old new from (replace precedences path old new from)
replace-IsSettled precedences path old new from h = elim (Bool-cases (render old == render new)) [
  | inl e ↦
      rw (replace-same precedences path old new from e, e)
        ((==_iff (render old) (render new)).0 e, refl, refl, refl)
  | inr e ↦ elim (Bool-cases (recorded_at precedences from.precedence old)) [
    | inl r ↦ rw (replace-other precedences path old new from e, e, r) (refl, refl, refl, refl)
    | inr r ↦
        rw (replace-other precedences path old new from e, e, r)
          (
            render-displace old new from h,
            (from_of-displace old new from h).0,
            (from_of-displace old new from h).1,
            refl,
          )
  ]
]

-- Two values of a field, of which neither is a map and which are no scalar and list of the same bytes,
-- are merged by the layer on record for the older one. If it has the precedence of the new layer and
-- the bytes differ, the old value stays and one conflict at the path names both layers and both
-- values. Else no conflict is reported, the result has the new bytes, and where they are not the old
-- ones, it is recorded as the new layer's and has the old value first among those it displaced.
pub merge-IsSettled :
    (precedences : Precedences) (path : Text) (old new : Value) (from : Contribution)
    → alike old new ≡ true
    → IsSettled precedences path old new from (merge precedences path old new from)
unfolding merge is_map
merge-IsSettled precedences path (scalar text q p) new from h =
    replace-IsSettled precedences path (scalar text q p) new from (ground (arith, h))
merge-IsSettled precedences path (list items p) new from h =
    replace-IsSettled precedences path (list items p) new from (ground (arith, h))
merge-IsSettled precedences path (map fields p) new from h = absurd (ground (arith, h))
