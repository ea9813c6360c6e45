-- ===== src/Matcher/Contradictions.antt =====
-- internal/match/match.go: what Validate reports never applies to any host.
use datum.Prelude.{
  ==_iff, ◌≡◌, refl, ◌∙◌, Bool, true, false, none, List, [], ◌∷◌, all, any, any-append, contains,
  Bool-cases, inl, inr, and-true, arith,
}
use datum.Map.{Map, lookup, get_or, has-lookup_none, keys}
use datum.Text.{Text, text_eq}
use datum.Matcher.{
  Matcher, empty_list, MatchError, empty_one_of, empty_none_of, present_and_absent,
  value_and_absent, report_keys, validate, label_test, one_of_test, missing_test, evaluate,
}
use datum.Matcher.Evaluate.{value_passes, selects, evaluate-selects}

-- Every message but that of an empty noneOf says that the matcher can never match.
abbrev pub is_fatal : MatchError → Bool
is_fatal (empty_none_of key) = false
is_fatal _ = true

-- What a key that has to be missing excludes.
missing_excludes :
    (labels : Map Text Text) (missing : List Text) (key : Text)
    → all (missing_test labels) missing ≡ true
    → contains missing key ≡ true
    → lookup key labels ≡ none
unfolding contains missing_test
missing_excludes labels [] key h k = cc
missing_excludes labels (x ∷ xs) key h k =
    ground (arith, missing_excludes labels xs key, has-lookup_none key labels, ==_iff x key)

-- A key whose value is tested is not among those that have to be missing.
no_conflict :
    (test : Text → Text → Bool) (error : Text → MatchError) (labels : Map Text Text)
    (missing ks : List Text)
    → all (missing_test labels) missing ≡ true
    → all (value_passes test labels) ks ≡ true
    → report_keys (contains missing) error ks ≡ []
unfolding report_keys
no_conflict test error labels missing [] h k = refl
no_conflict test error labels missing (x ∷ xs) h k =
    ground (arith, no_conflict test error labels missing xs h, missing_excludes labels missing x h)

no_empty_choice :
    (m : Matcher) (labels : Map Text Text) (ks : List Text)
    → all (value_passes (one_of_test m) labels) ks ≡ true
    → report_keys (λ key. empty_list (get_or m.one_of key [])) empty_one_of ks ≡ []
unfolding report_keys one_of_test contains
no_empty_choice m labels [] k = refl
no_empty_choice m labels (x ∷ xs) k = ground (arith, no_empty_choice m labels xs)

none_of-harmless :
    (test : Text → Bool) (ks : List Text) → any is_fatal (report_keys test empty_none_of ks) ≡ false
unfolding report_keys
none_of-harmless test [] = refl
none_of-harmless test (k ∷ ks) = ground (arith, none_of-harmless test ks)

selected-harmless :
    (m : Matcher) (labels : Map Text Text)
    → selects m labels ≡ true
    → any is_fatal (validate m) ≡ false
unfolding validate
selected-harmless m labels h =
    let (h1, missing) = and-true _ _ h in
    let (h2, present) = and-true _ _ h1 in
    let (h3, others) = and-true _ _ h2 in
    let (by_label, by_choice) = and-true _ _ h3 in
    let a = no_empty_choice m labels (keys m.one_of) by_choice in
    let c =
      no_conflict (λ key value. true) present_and_absent labels m.missing m.has_keys missing
        present in
    let d =
      no_conflict (label_test m) value_and_absent labels m.missing (keys m.labels) missing
        by_label in
    let e =
      no_conflict (one_of_test m) value_and_absent labels m.missing (keys m.one_of) missing
        by_choice in
    simp (any-append, a, c, d, e, none_of-harmless)

-- A matcher in which Validate finds a contradiction (anything but an empty noneOf) selects no host,
-- whatever its labels are.
pub validate-never :
    (m : Matcher) (labels : Map Text Text)
    → any is_fatal (validate m) ≡ true
    → (evaluate m labels).0 ≡ false
validate-never m labels h = elim (Bool-cases (selects m labels)) [
  | inl e ↦ cc (selected-harmless m labels e)
  | inr e ↦ evaluate-selects m labels ∙ e
]
