-- ===== src/Resolve/Substitute.antt =====
-- internal/resolve/substitute.go: placeholders are replaced by labels of the host.
pub mod Pieces
use datum.Prelude.{
  ◌==◌, ℕ, zero, suc, ◌+◌, ◌-◌, not, none, some, is_some, List, [], ◌∷◌, ◌++◌, take, drop, length,
  sort_by, if◌then◌else◌,
}
use datum.Map.{Map, lookup, put, keys, get_or}
use datum.Text.{Text, text_eq, text_lt, bytes, starts_with, index}
use datum.Text.Trim.{trim_space}
use datum.Document.Value.{Value, Values, Fields, end, field, nil, cons, scalar, list, map}
use datum.Resolve.Manifest.{Used}

-- The messages of a substitution.
pub data SubstituteError : Type 0 where
  unclosed : Text → SubstituteError
  undeclared : Text → Text → SubstituteError
  unknown : Text → SubstituteError

-- substituter
pub record Substituter : Type 0 where
  pub host : Text
  pub labels : Map Text Text
  pub used : Map Text Text
  pub errs : List SubstituteError

-- newSubstituter
abbrev pub new_substituter : Text → Map Text Text → Substituter
new_substituter host labels = record { host = host; labels = labels; used = []; errs = [] }

-- fail
abbrev pub fail : SubstituteError → Substituter → Substituter
fail err s = record s { errs = s.errs ++ err ∷ [] }

-- s.used[placeholder] = value
unfoldable pub use_value : Text → Text → Substituter → Substituter
unfolding put
use_value placeholder value s = record s { used = put placeholder value s.used }

-- expand
unfoldable pub expand : Text → Text → Substituter → Text × Substituter
unfolding use_value lookup starts_with
expand placeholder literal s =
    if placeholder == bytes "host"
    then (s.host, use_value placeholder s.host s)
    else if starts_with placeholder (bytes "labels.")
    then elim (lookup (drop 7 placeholder) s.labels) [
      | none ↦ ([], fail (undeclared (drop 7 placeholder) s.host) s)
      | some value ↦ (value, use_value placeholder value s)
    ]
    else if starts_with placeholder (bytes "secrets.")
    then (literal, s)
    else ([], fail (unknown placeholder) s)

-- The loop of text, from what is written out and what is left.
unfoldable pub replace_from : ℕ → Text → Text → Text → Substituter → Text × Substituter
unfolding index expand trim_space
replace_from zero whole out rest s = (out ++ rest, s)
replace_from (suc f) whole out rest s = elim (index (bytes "{{") rest) [
  | none ↦ (out ++ rest, s)
  | some start ↦ elim (index (bytes "}}") (drop start rest)) [
    | none ↦ (out ++ rest, fail (unclosed whole) s)
    | some close ↦
        let placeholder = trim_space (take (start + close - (start + 2)) (drop (start + 2) rest)) in
        let literal = take (close + 2) (drop start rest) in
        let (value, after) = expand placeholder literal s in
        replace_from f whole (out ++ (take start rest ++ value)) (drop (start + close + 2) rest)
          after
  ]
]

-- text. Each round takes at least the braces away, so the rounds are enough.
unfoldable pub substitute_text : Text → Substituter → Text × Substituter
unfolding replace_from index
substitute_text whole s =
    if not (is_some (index (bytes "{{") whole))
    then (whole, s)
    else replace_from (suc (length whole)) whole [] whole s

-- value
unfoldable mutual
  unfolding substitute_text

  pub substitute : Value → Substituter → Value × Substituter
  substitute (scalar text quoted p) s =
      let (out, after) = substitute_text text s in (scalar out quoted p, after)
  substitute (list items p) s = let (out, after) = substitute_items items s in (list out p, after)
  substitute (map fields p) s = let (out, after) = substitute_fields fields s in (map out p, after)

  pub substitute_items : Values → Substituter → Values × Substituter
  substitute_items nil s = (nil, s)
  substitute_items (cons item rest) s =
      let (out, after) = substitute item s in
      let (more, last) = substitute_items rest after in (cons out more, last)

  pub substitute_fields : Fields → Substituter → Fields × Substituter
  substitute_fields end s = (end, s)
  substitute_fields (field key v rest) s =
      let (out, after) = substitute v s in
      let (more, last) = substitute_fields rest after in (field key out more, last)

-- The loop of Used over the sorted keys.
unfoldable pub used_at : Map Text Text → List Text → List Used
unfolding get_or
used_at used [] = []
used_at used (k ∷ ks) = record { placeholder = k; value = get_or used k [] } ∷ used_at used ks

-- Used
unfoldable pub used_of : Substituter → List Used
unfolding used_at keys sort_by
used_of s = used_at s.used (sort_by text_lt (keys s.used))
