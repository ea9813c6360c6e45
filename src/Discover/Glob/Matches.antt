-- ===== src/Discover/Glob/Matches.antt =====
-- internal/discover/glob.go: what a pattern matches.
use datum.Prelude.{
  ◌==◌, ◌≡◌, ◌↔◌, refl, sym, subst, inl, inr, Bool, true, false, Bool-cases, List, [], ◌∷◌, ◌++◌,
  any, arith,
}
use datum.Text.{Text, text_eq, bytes, split, split_parts, join}
use datum.Discover.Glob.{rests, beginnings, match_first, match_segments, match_glob, excluded}

module _ (match_segment : Text → Text → Bool) where
  -- A pattern matches segments: `**` takes any number of them, any other segment of it takes one.
  pub data Matches : List Text → List Text → Type 0 where
    done : Matches [] []
    one :
        {p s : Text} {ps ss : List Text}
        → (p == bytes "**") ≡ false
        → match_segment p s ≡ true
        → Matches ps ss
        → Matches (p ∷ ps) (s ∷ ss)
    none_more :
        {p : Text} {ps ss : List Text}
        → (p == bytes "**") ≡ true
        → Matches ps ss
        → Matches (p ∷ ps) ss
    one_more :
        {p s : Text} {ps ss : List Text}
        → (p == bytes "**") ≡ true
        → Matches (p ∷ ps) ss
        → Matches (p ∷ ps) (s ∷ ss)

  stars_sound :
      (p : Text) (ps path : List Text)
      → (p == bytes "**") ≡ true
      → ((ss : List Text) → match_segments match_segment ps ss ≡ true → Matches ps ss)
      → any (match_segments match_segment ps) (rests path) ≡ true
      → Matches (p ∷ ps) path
  unfolding rests
  stars_sound p ps [] stars ih h = none_more stars (ih [] (ground (arith, h)))
  stars_sound p ps (s ∷ ss) stars ih h =
      elim (Bool-cases (match_segments match_segment ps (s ∷ ss))) [
        | inl e ↦ none_more stars (ih (s ∷ ss) e)
        | inr e ↦ one_more stars (stars_sound p ps ss stars ih (ground (arith, h, e)))
      ]

  match_segments_sound :
      (ps path : List Text) → match_segments match_segment ps path ≡ true → Matches ps path
  unfolding match_segments match_first
  match_segments_sound [] [] h = done
  match_segments_sound [] (s ∷ ss) h = absurd (ground (arith, h))
  match_segments_sound (p ∷ ps) path h = elim (Bool-cases (p == bytes "**")) [
    | inl stars ↦ stars_sound p ps path stars (match_segments_sound ps) (ground (arith, h, stars))
    | inr plain ↦ single p ps path plain (match_segments_sound ps) (ground (arith, h, plain))
  ]
    where
      single :
          (p : Text) (ps path : List Text)
          → (p == bytes "**") ≡ false
          → ((ss : List Text) → match_segments match_segment ps ss ≡ true → Matches ps ss)
          → match_first match_segment (match_segments match_segment ps) p path ≡ true
          → Matches (p ∷ ps) path
      single p ps [] plain ih h = absurd (ground (arith, h))
      single p ps (s ∷ ss) plain ih h = one plain (ground (arith, h)) (ih ss (ground (arith, h)))

  match_segments_complete :
      (ps path : List Text) → Matches ps path → match_segments match_segment ps path ≡ true
  unfolding match_segments match_first rests
  match_segments_complete ps path done = refl
  match_segments_complete ps path (one plain h m) =
      ground (arith, plain, h, match_segments_complete _ _ m)
  match_segments_complete ps [] (none_more stars m) =
      ground (arith, stars, match_segments_complete _ _ m)
  match_segments_complete ps (s ∷ ss) (none_more stars m) =
      ground (arith, stars, match_segments_complete _ _ m)
  match_segments_complete ps path (one_more stars m) =
      ground (arith, stars, match_segments_complete _ _ m)

  -- matchSegments decides whether a pattern matches: its loops, which try each number of segments
  -- for a `**`, find a match exactly if there is one.
  pub match_segments_iff :
      (ps path : List Text) → (match_segments match_segment ps path ≡ true) ↔ Matches ps path
  match_segments_iff ps path = (match_segments_sound ps path, match_segments_complete ps path)

any-beginnings :
    (test : List Text → Bool) (before xs ys : List Text)
    → any test (beginnings before xs) ≡ true
    → any test (beginnings before (xs ++ ys)) ≡ true
unfolding beginnings
any-beginnings test before [] ys h = absurd (ground (arith, h))
any-beginnings test before (x ∷ xs) ys h =
    ground (arith, h, any-beginnings test (before ++ x ∷ []) xs ys)

split-below :
    (rel more : Text) → split b'/' (rel ++ b'/' ∷ more) ≡ split b'/' rel ++ split b'/' more
unfolding split split_parts
split-below [] more = refl
split-below (c ∷ rel) more = ground (arith, split-below rel more)

any_weaker :
    (p q : Text → Bool) (xs : List Text)
    → ((x : Text) → p x ≡ true → q x ≡ true)
    → any p xs ≡ true
    → any q xs ≡ true
any_weaker p q [] h k = absurd (ground (arith, k))
any_weaker p q (x ∷ xs) h k = elim (Bool-cases (p x)) [
  | inl e ↦ ground (arith, h x e)
  | inr e ↦ ground (arith, any_weaker p q xs h (ground (arith, k, e)))
]

-- What is below an excluded path is excluded too.
pub excluded_below :
    (match_segment : Text → Text → Bool) (patterns : List Text) (rel more : Text)
    → excluded match_segment patterns rel ≡ true
    → excluded match_segment patterns (rel ++ b'/' ∷ more) ≡ true
unfolding excluded
excluded_below match_segment patterns rel more h =
    let test = λ (pattern : Text) (segments : List Text).
      match_glob match_segment pattern (join (bytes "/") segments) in
    subst
      (λ (segments : List Text).
        any (λ pattern. any (test pattern) (beginnings [] segments)) patterns ≡ true)
      (sym (split-below rel more))
      (any_weaker (λ pattern. any (test pattern) (beginnings [] (split b'/' rel)))
        (λ pattern. any (test pattern) (beginnings [] (split b'/' rel ++ split b'/' more))) patterns
        (λ pattern. any-beginnings (test pattern) [] (split b'/' rel) (split b'/' more)) h)
