-- ===== src/Matcher/Evaluate.antt =====
-- internal/match/match.go: when Evaluate selects a host, and what its reasons are.
use datum.Prelude.{
  ◌≡◌, refl, sym, ap, ◌∙◌, Bool, true, false, ◌&&◌, none, some, List, [], ◌∷◌, ◌++◌, All,
  All-append, all, sort_by, all-sort_by, guard, is_some, Bool-cases, Option-cases, inl, inr, arith,
  subst, >>=-some, some_inj,
}
use datum.Map.{Map, lookup, keys}
use datum.Text.{Text, text_eq, text_lt}
use datum.Matcher.{
  Matcher, is_empty, Reason, in_order, terms_of, check_all, label_test, one_of_test, none_of_test,
  missing_test, terms, evaluate,
}

abbrev pub map_keys : List Reason → List Text
map_keys [] = []
map_keys (r ∷ rs) = r.key ∷ map_keys rs

-- The label has a value that passes a test.
abbrev pub value_passes : (Text → Text → Bool) → Map Text Text → Text → Bool
value_passes test labels key = elim (lookup key labels) [ none ↦ false | some v ↦ test key v ]

-- The matcher as one conjunction over its terms, in no particular order.
abbrev pub selects : Matcher → Map Text Text → Bool
selects m labels =
    all (value_passes (label_test m) labels) (keys m.labels)
    && all (value_passes (one_of_test m) labels) (keys m.one_of)
    && all (none_of_test m labels) (keys m.none_of)
    && all (value_passes (λ key value. true) labels) m.has_keys
    && all (missing_test labels) m.missing

some-terms_of :
    (test : Text → Text → Bool) (labels : Map Text Text) (ks : List Text)
    → is_some (terms_of test labels ks) ≡ all (value_passes test labels) ks
unfolding terms_of
some-terms_of test labels [] = refl
some-terms_of test labels (k ∷ ks) = ground (arith, some-terms_of test labels ks)

some-check_all : (test : Text → Bool) (ks : List Text) → is_some (check_all test ks) ≡ all test ks
unfolding check_all
some-check_all test [] = refl
some-check_all test (k ∷ ks) = ground (arith, some-check_all test ks)

-- The same for the keys in order.
some-stage :
    (test : Text → Text → Bool) (labels : Map Text Text) (ks : List Text)
    → is_some (terms_of test labels (in_order ks)) ≡ all (value_passes test labels) ks
unfolding in_order
some-stage test labels ks =
    some-terms_of test labels (sort_by text_lt ks)
    ∙ all-sort_by text_lt (value_passes test labels) ks

some-check :
    (test : Text → Bool) (ks : List Text) → is_some (check_all test (in_order ks)) ≡ all test ks
unfolding in_order
some-check test ks = some-check_all test (sort_by text_lt ks) ∙ all-sort_by text_lt test ks

some-terms : (m : Matcher) (labels : Map Text Text) → is_some (terms m labels) ≡ selects m labels
unfolding terms
some-terms m labels = ground (
  arith,
  some-stage (label_test m) labels (keys m.labels),
  some-stage (one_of_test m) labels (keys m.one_of),
  some-stage (λ key value. true) labels m.has_keys,
  some-check (none_of_test m labels) (keys m.none_of),
  some-check (missing_test labels) m.missing,
)

empty-selects : (m : Matcher) (labels : Map Text Text) → is_empty m ≡ true → selects m labels ≡ true
unfolding is_empty keys
empty-selects m labels h = ground arith

-- A matcher selects a host exactly if every one of its terms holds of the labels, and an empty one
-- selects every host; the order in which the terms are tried does not matter.
pub evaluate-selects :
    (m : Matcher) (labels : Map Text Text) → (evaluate m labels).0 ≡ selects m labels
unfolding evaluate
evaluate-selects m labels = ground (arith, empty-selects m labels, some-terms m labels)

abbrev IsExplained : Map Text Text → List Text → List Reason → Type 0
IsExplained labels ks rs = (map_keys rs ≡ ks) × All (λ r. lookup r.key labels ≡ some r.value) rs

-- The reasons of a stage are the labels of its keys, with their values.
terms_of-IsExplained :
    (test : Text → Text → Bool) (labels : Map Text Text) (ks : List Text) (rs : List Reason)
    → terms_of test labels ks ≡ some rs
    → IsExplained labels ks rs
unfolding terms_of
terms_of-IsExplained test labels [] rs h = subst (IsExplained labels []) (some_inj h) (refl, tt)
terms_of-IsExplained test labels (k ∷ ks) rs h =
    let (v, found, h1) = >>=-some (lookup k labels) _ h in
    let (u, passed, h2) = >>=-some (guard (test k v)) _ h1 in
    let (more, rest, h3) = >>=-some (terms_of test labels ks) _ h2 in
    let (keyed, real) = terms_of-IsExplained test labels ks more rest in
    subst (IsExplained labels (k ∷ ks)) (some_inj h3) (ap (λ l. k ∷ l) keyed, (found, real))

map_keys-append : (xs ys : List Reason) → map_keys (xs ++ ys) ≡ map_keys xs ++ map_keys ys
map_keys-append [] ys = refl
map_keys-append (x ∷ xs) ys = ap (λ l. x.key ∷ l) (map_keys-append xs ys)

IsExplained-append :
    (labels : Map Text Text) (ks js : List Text) (xs ys : List Reason)
    → IsExplained labels ks xs
    → IsExplained labels js ys
    → IsExplained labels (ks ++ js) (xs ++ ys)
IsExplained-append labels ks js xs ys hx hy =
    (cc (map_keys-append xs ys, hx.0, hy.0), All-append _ xs ys hx.1 hy.1)

terms-IsExplained :
    (m : Matcher) (labels : Map Text Text) (rs : List Reason)
    → terms m labels ≡ some rs
    → IsExplained labels
        (in_order (keys m.labels) ++ in_order (keys m.one_of) ++ in_order m.has_keys)
        rs
unfolding terms
terms-IsExplained m labels rs h =
    let (a, ha, h1) = >>=-some (terms_of (label_test m) labels (in_order (keys m.labels))) _ h in
    let (b, hb, h2) = >>=-some (terms_of (one_of_test m) labels (in_order (keys m.one_of))) _ h1 in
    let (u, hu, h3) =
      >>=-some (check_all (none_of_test m labels) (in_order (keys m.none_of))) _ h2 in
    let (c, hc, h4) = >>=-some (terms_of (λ key value. true) labels (in_order m.has_keys)) _ h3 in
    let (w, hw, h5) = >>=-some (check_all (missing_test labels) (in_order m.missing)) _ h4 in
    let ab =
      IsExplained-append labels _ _ a b (terms_of-IsExplained _ labels _ a ha)
        (terms_of-IsExplained _ labels _ b hb) in
    subst (IsExplained labels _) (some_inj h5) (
      IsExplained-append labels _ _ (a ++ b) c ab
        (terms_of-IsExplained (λ key value. true) labels _ c hc))

empty_order :
    (m : Matcher)
    → is_empty m ≡ true
    → in_order (keys m.labels) ++ in_order (keys m.one_of) ++ in_order m.has_keys ≡ []
unfolding is_empty keys in_order sort_by
empty_order m h = ground arith

-- A selected host's reasons name each label, oneOf and has key of the matcher, each group in order,
-- with the value that the host declares.
pub evaluate-reasons :
    (m : Matcher) (labels : Map Text Text) (reasons : List Reason)
    → evaluate m labels ≡ (true, reasons)
    → (map_keys reasons
        ≡ in_order (keys m.labels) ++ in_order (keys m.one_of) ++ in_order m.has_keys)
      × All (λ r. lookup r.key labels ≡ some r.value) reasons
unfolding evaluate
evaluate-reasons m labels reasons h = elim (Bool-cases (is_empty m)) [
  | inl empty ↦
      let none_given : [] ≡ reasons = ground arith in
      subst (IsExplained labels _) none_given (sym (empty_order m empty), tt)
  | inr given ↦ elim (Option-cases (terms m labels)) [
    | inl e ↦ absurd (ground arith)
    | inr (rs, e) ↦
        let same : rs ≡ reasons = ground arith in
        subst (IsExplained labels _) same (terms-IsExplained m labels rs e)
  ]
]
