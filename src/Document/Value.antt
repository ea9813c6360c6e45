-- ===== src/Document/Value.antt =====
-- internal/document/value.go: desired state as a tree.
use datum.Prelude.{
  ◌==◌, ◌≡◌, Bool, true, false, Option, none, some, List, [], ◌∷◌, sort_by, if◌then◌else◌,
}
use datum.Text.{Text, text_eq, text_lt, split}

-- A value that lost a merge.
pub record Origin : Type 0 where
  pub layer : Text
  pub scalar : Text

-- The fields From and Displaced of Value, which a value of each kind has.
pub record Provenance : Type 0 where
  pub from : Text
  pub displaced : List Origin

-- Value by its Kind. A map's entries stand in the order of their keys, each key once.
mutual
  pub data Value : Type 0 where
    scalar : Text → Bool → Provenance → Value
    list : Values → Provenance → Value
    map : Fields → Provenance → Value

  pub data Values : Type 0 where
    nil : Values
    cons : Value → Values → Values

  pub data Fields : Type 0 where
    end : Fields
    field : Text → Value → Fields → Fields

abbrev pub fresh : Provenance
fresh = record { from = []; displaced = [] }

-- The function Scalar.
abbrev pub plain : Text → Value
plain text = scalar text false fresh

abbrev pub values : List Value → Values
values [] = nil
values (v ∷ vs) = cons v (values vs)

-- v.Map[key]
unfoldable pub field_at : Text → Fields → Option Value
field_at key end = none
field_at key (field k v rest) = if k == key then some v else field_at key rest

-- No key stands in a map twice.
abbrev pub IsKeyed : Fields → Type 0
IsKeyed end = Unit
IsKeyed (field k v rest) = (field_at k rest ≡ none) × IsKeyed rest

-- v.Map[key] = value
unfoldable pub put_field : Text → Value → Fields → Fields
put_field key v end = field key v end
put_field key v (field k w rest) =
    let more = put_field key v rest in
    if k == key
    then field k v rest
    else if text_lt key k
    then field key v (field k w rest)
    else field k w more

unfoldable pub field_names : Fields → List Text
field_names end = []
field_names (field k v rest) = k ∷ field_names rest

-- Value.Keys; v.Map is nil unless the value is a map
unfoldable pub value_keys : Value → List Text
unfolding field_names sort_by
value_keys (map fields p) = sort_by text_lt (field_names fields)
value_keys _ = []

unfoldable pub lookup_step : Text → Value → Option Value
unfolding field_at
lookup_step part (map fields p) = field_at part fields
lookup_step part _ = none

-- The loop of Value.Lookup over the parts of the path.
unfoldable pub lookup_parts : List Text → Value → Option Value
unfolding lookup_step
lookup_parts [] v = some v
lookup_parts (part ∷ parts) v = elim (lookup_step part v) [
  | none ↦ none
  | some next ↦ lookup_parts parts next
]

-- Value.Lookup
unfoldable pub lookup : Text → Value → Option Value
unfolding lookup_parts split
lookup path v = lookup_parts (split b'.' path) v

-- The field Scalar of a value, which is empty unless the value is a scalar.
unfoldable pub scalar_text : Value → Text
scalar_text (scalar text q p) = text
scalar_text _ = []

-- v.Kind == KindScalar
unfoldable pub is_scalar : Value → Bool
is_scalar (scalar text q p) = true
is_scalar _ = false

unfoldable pub is_map : Value → Bool
is_map (map fields p) = true
is_map _ = false

-- The field From.
unfoldable pub from_of : Value → Text
from_of (scalar text q p) = p.from
from_of (list items p) = p.from
from_of (map fields p) = p.from
