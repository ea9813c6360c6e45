-- ===== src/Matcher.antt =====
-- internal/match/match.go: which layers apply to a host, and why.
pub mod Evaluate
pub mod Contradictions
use datum.Prelude.{
  Eq, ◌==◌, Bool, true, false, not, ◌&&◌, ◌||◌, Option, none, some, List, [], ◌∷◌, ◌++◌, contains,
  sort_by, if◌then◌else◌, ◌>>=◌, ◌>>◌, guard,
}
use datum.Map.{Map, lookup, get_or, has, keys}
use datum.Text.{Text, text_eq, text_lt}

-- document.Matcher
pub record Matcher : Type 0 where
  pub labels : Map Text Text
  pub one_of : Map Text (List Text)
  pub none_of : Map Text (List Text)
  pub has_keys : List Text
  pub missing : List Text

abbrev pub empty_list {ℓ} : {A : Type ℓ} → List A → Bool
empty_list [] = true
empty_list (x ∷ xs) = false

-- Matcher.IsEmpty
unfoldable pub is_empty : Matcher → Bool
is_empty m =
    empty_list m.labels
    && empty_list m.one_of
    && empty_list m.none_of
    && empty_list m.has_keys
    && empty_list m.missing

pub record Reason : Type 0 where
  pub key : Text
  pub value : Text

-- sorted, sortedKeys and sortedKeysOfLists
unfoldable pub in_order : List Text → List Text
in_order = sort_by text_lt

-- A loop of Evaluate that appends a reason for each key, or returns false.
unfoldable pub terms_of : (Text → Text → Bool) → Map Text Text → List Text → Option (List Reason)
terms_of test labels [] = some []
terms_of test labels (key ∷ rest) = do
  value ← lookup key labels
  guard (test key value)
  more ← terms_of test labels rest
  some (record { key = key; value = value } ∷ more)

-- A loop of Evaluate that only checks.
unfoldable pub check_all : (Text → Bool) → List Text → Option (Unit {0})
check_all test [] = some tt
check_all test (key ∷ rest) = do guard (test key); check_all test rest

-- value == m.Labels[key]
unfoldable pub label_test : Matcher → Text → Text → Bool
label_test m key value = value == get_or m.labels key []

unfoldable pub one_of_test : Matcher → Text → Text → Bool
unfolding contains
one_of_test m key value = contains (get_or m.one_of key []) value

-- An absent label counts as not listed.
unfoldable pub none_of_test : Matcher → Map Text Text → Text → Bool
unfolding contains
none_of_test m labels key = elim (lookup key labels) [
  | none ↦ true
  | some v ↦ not (contains (get_or m.none_of key []) v)
]

unfoldable pub missing_test : Map Text Text → Text → Bool
missing_test labels key = not (has key labels)

-- The five loops of Evaluate, one after another.
unfoldable pub terms : Matcher → Map Text Text → Option (List Reason)
unfolding terms_of check_all label_test one_of_test none_of_test missing_test in_order
terms m labels = do
  by_label ← terms_of (label_test m) labels (in_order (keys m.labels))
  by_choice ← terms_of (one_of_test m) labels (in_order (keys m.one_of))
  check_all (none_of_test m labels) (in_order (keys m.none_of))
  by_presence ← terms_of (λ key value. true) labels (in_order m.has_keys)
  check_all (missing_test labels) (in_order m.missing)
  some (by_label ++ by_choice ++ by_presence)

-- Evaluate
unfoldable pub evaluate : Matcher → Map Text Text → Bool × List Reason
evaluate m labels =
    if is_empty m
    then (true, [])
    else elim (terms m labels) [ none ↦ (false, []) | some reasons ↦ (true, reasons) ]

-- What Validate reports.
pub data MatchError : Type 0 where
  empty_one_of : Text → MatchError
  empty_none_of : Text → MatchError
  present_and_absent : Text → MatchError
  value_and_absent : Text → MatchError

-- A loop of Validate over keys.
unfoldable pub report_keys : (Text → Bool) → (Text → MatchError) → List Text → List MatchError
report_keys test error [] = []
report_keys test error (key ∷ rest) =
    let more = report_keys test error rest in if test key then error key ∷ more else more

-- Validate
unfoldable pub validate : Matcher → List MatchError
unfolding report_keys contains
validate m =
    report_keys (λ key. empty_list (get_or m.one_of key [])) empty_one_of (keys m.one_of)
    ++ report_keys (λ key. empty_list (get_or m.none_of key [])) empty_none_of (keys m.none_of)
    ++ report_keys (contains m.missing) present_and_absent m.has_keys
    ++ report_keys (contains m.missing) value_and_absent (keys m.labels)
    ++ report_keys (contains m.missing) value_and_absent (keys m.one_of)
