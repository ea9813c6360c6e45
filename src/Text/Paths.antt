-- ===== src/Text/Paths.antt =====
-- The functions of `path` and `path/filepath` that the program uses, with `/` as the separator.
pub mod Clean
use datum.Prelude.{
  Eq, ◌==◌, ℕ, Bool, true, false, not, ◌&&◌, ◌||◌, Option, none, some, List, [], ◌∷◌, ◌++◌,
  if◌then◌else◌, eqb,
}
use datum.Text.{Text, text_eq, bytes, starts_with, split, join}

-- filepath.IsAbs
unfoldable pub is_abs : Text → Bool
unfolding starts_with
is_abs path = starts_with path (bytes "/")

-- The components that Clean keeps, the last one first. A `..` takes one back; at the root there is
-- none, and in a relative path without one it stays.
unfoldable pub clean_step : Bool → List Text → Text → List Text
clean_step rooted kept component =
    if component == [] || component == bytes "."
    then kept
    else if component == bytes ".."
    then elim kept [
      | [] ↦ if rooted then [] else component ∷ []
      | last ∷ rest ↦ if last == bytes ".." then component ∷ last ∷ rest else rest
    ]
    else component ∷ kept

unfoldable pub clean_components : Bool → List Text → List Text → List Text
unfolding clean_step
clean_components rooted kept [] = kept
clean_components rooted kept (component ∷ rest) =
    clean_components rooted (clean_step rooted kept component) rest

unfoldable pub reverse_onto : List Text → List Text → List Text
reverse_onto [] out = out
reverse_onto (x ∷ xs) out = reverse_onto xs (x ∷ out)

-- The components of Clean's result, in order.
unfoldable pub components : Text → List Text
unfolding clean_components reverse_onto split is_abs
components path = reverse_onto (clean_components (is_abs path) [] (split b'/' path)) []

-- path.Clean and filepath.Clean
unfoldable pub clean : Text → Text
unfolding components is_abs join
clean path =
    if is_abs path
    then b'/' ∷ join (bytes "/") (components path)
    else elim (components path) [ [] ↦ bytes "." | c ∷ cs ↦ join (bytes "/") (c ∷ cs) ]

-- The part before the last slash, if there is a slash.
unfoldable pub before_last_slash : Text → Option Text
before_last_slash [] = none
before_last_slash (c ∷ s) = elim (before_last_slash s) [
  | some parent ↦ some (c ∷ parent)
  | none ↦ if eqb c b'/' then some [] else none
]

-- filepath.Dir
unfoldable pub dir_of : Text → Text
unfolding before_last_slash clean
dir_of path = elim (before_last_slash path) [
  | none ↦ bytes "."
  | some parent ↦ clean (parent ++ bytes "/")
]
