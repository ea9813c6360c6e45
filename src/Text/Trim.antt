-- ===== src/Text/Trim.antt =====
-- strings.TrimSpace, on UTF-8.
use datum.Prelude.{
  ℕ, zero, suc, ◌-◌, ◌≡◌, refl, ap, ◌∙◌, Bool, true, false, not, ◌&&◌, and-true, Bool-cases, inl,
  inr, eqb_iff, List, [], ◌∷◌, ◌++◌, append-nil, all, length, eqb, ltb, arith, if◌then◌else◌,
}
use datum.Text.{Text, starts_with}

unfoldable reverse_bytes : Text → Text → Text
reverse_bytes [] out = out
reverse_bytes (c ∷ s) out = reverse_bytes s (c ∷ out)

-- The code points for which unicode.IsSpace holds, in UTF-8.
abbrev pub spaces : List Text
spaces =
    (9 ∷ [])
    ∷ (10 ∷ [])
    ∷ (11 ∷ [])
    ∷ (12 ∷ [])
    ∷ (13 ∷ [])
    ∷ (32 ∷ [])
    ∷ (194 ∷ 133 ∷ [])
    ∷ (194 ∷ 160 ∷ [])
    ∷ (225 ∷ 154 ∷ 128 ∷ [])
    ∷ (226 ∷ 128 ∷ 128 ∷ [])
    ∷ (226 ∷ 128 ∷ 129 ∷ [])
    ∷ (226 ∷ 128 ∷ 130 ∷ [])
    ∷ (226 ∷ 128 ∷ 131 ∷ [])
    ∷ (226 ∷ 128 ∷ 132 ∷ [])
    ∷ (226 ∷ 128 ∷ 133 ∷ [])
    ∷ (226 ∷ 128 ∷ 134 ∷ [])
    ∷ (226 ∷ 128 ∷ 135 ∷ [])
    ∷ (226 ∷ 128 ∷ 136 ∷ [])
    ∷ (226 ∷ 128 ∷ 137 ∷ [])
    ∷ (226 ∷ 128 ∷ 138 ∷ [])
    ∷ (226 ∷ 128 ∷ 168 ∷ [])
    ∷ (226 ∷ 128 ∷ 169 ∷ [])
    ∷ (226 ∷ 128 ∷ 175 ∷ [])
    ∷ (226 ∷ 129 ∷ 159 ∷ [])
    ∷ (227 ∷ 128 ∷ 128 ∷ [])
    ∷ []

abbrev map_texts : (Text → Text) → List Text → List Text
map_texts f [] = []
map_texts f (s ∷ ss) = f s ∷ map_texts f ss

-- The length of the first of the codes that begins a text, or zero.
unfoldable width_of : List Text → Text → ℕ
unfolding starts_with
width_of [] s = 0
width_of (one ∷ more) s = if starts_with s one then length one else width_of more s

-- A text without the codes before it; the number counts bytes that are still to be dropped.
unfoldable trim_codes : List Text → ℕ → Text → Text
unfolding width_of
trim_codes codes n [] = []
trim_codes codes (suc n) (c ∷ s) = trim_codes codes n s
trim_codes codes zero (c ∷ s) =
    let width = width_of codes (c ∷ s) in
    let rest = trim_codes codes (width - 1) s in if eqb width 0 then c ∷ s else rest

-- strings.TrimSpace
unfoldable pub trim_space : Text → Text
unfolding trim_codes reverse_bytes
trim_space s =
    let left = trim_codes spaces 0 s in
    let codes = map_texts (λ t. reverse_bytes t []) spaces in
    reverse_bytes (trim_codes codes 0 (reverse_bytes left [])) []

-- An ASCII byte that is no space and no control.
unfoldable pub is_printing : ℕ → Bool
is_printing c = ltb 32 c && ltb c 127

-- A code that begins with a byte that is not printing.
abbrev is_other : Text → Bool
is_other [] = false
is_other (b ∷ t) = not (is_printing b)

width_of-other :
    (codes : List Text) (c : ℕ) (s : Text)
    → is_printing c ≡ true
    → all is_other codes ≡ true
    → width_of codes (c ∷ s) ≡ 0
unfolding width_of starts_with
width_of-other [] c s h k = refl
width_of-other ([] ∷ codes) c s h k = absurd (ground (arith, k))
width_of-other ((b ∷ t) ∷ codes) c s h k =
    let ih = width_of-other codes c s h in
    elim (Bool-cases (eqb c b)) [
      | inl e ↦ absurd (ground (arith, k, h, ap is_printing ((eqb_iff c b).0 e)))
      | inr e ↦ ground (arith, ih, k, e)
    ]

width_of-printing : (c : ℕ) (s : Text) → is_printing c ≡ true → width_of spaces (c ∷ s) ≡ 0
unfolding is_printing
width_of-printing c s h = width_of-other spaces c s h refl

trim_codes-printing :
    (c : ℕ) (s : Text) → is_printing c ≡ true → trim_codes spaces 0 (c ∷ s) ≡ c ∷ s
unfolding trim_codes
trim_codes-printing c s h = rw (width_of-printing c s h) refl

reverse_twice :
    (s out acc : Text) → reverse_bytes (reverse_bytes s out) acc ≡ reverse_bytes out (s ++ acc)
unfolding reverse_bytes
reverse_twice [] out acc = refl
reverse_twice (c ∷ s) out acc = reverse_twice s (c ∷ out) acc

all-reverse_bytes :
    (p : ℕ → Bool) (s out : Text)
    → all p s ≡ true
    → all p out ≡ true
    → all p (reverse_bytes s out) ≡ true
unfolding reverse_bytes
all-reverse_bytes p [] out h k = k
all-reverse_bytes p (c ∷ s) out h k =
    let parts = and-true (p c) (all p s) h in
    all-reverse_bytes p s (c ∷ out) parts.1 (ground (arith, parts.0))

-- The codes that the trim from the right compares with.
abbrev backwards : List Text
backwards = map_texts (λ t. reverse_bytes t []) spaces

width_of-backwards : (c : ℕ) (s : Text) → is_printing c ≡ true → width_of backwards (c ∷ s) ≡ 0
unfolding is_printing reverse_bytes
width_of-backwards c s h = width_of-other backwards c s h refl

trim_codes-backwards : (s : Text) → all is_printing s ≡ true → trim_codes backwards 0 s ≡ s
unfolding trim_codes
trim_codes-backwards [] h = refl
trim_codes-backwards (c ∷ s) h = rw (width_of-backwards c s (and-true _ _ h).0) refl

trim_codes-newline : (s : Text) → trim_codes backwards 0 (10 ∷ s) ≡ trim_codes backwards 0 s
unfolding trim_codes width_of starts_with reverse_bytes
trim_codes-newline s = refl

trim_left : (s : Text) → all is_printing s ≡ true → trim_codes spaces 0 s ≡ s
unfolding trim_codes
trim_left [] h = refl
trim_left (c ∷ s) h = trim_codes-printing c s (and-true _ _ h).0

trim_left_newline :
    (c : ℕ) (s : Text)
    → is_printing c ≡ true
    → trim_codes spaces 0 ((c ∷ s) ++ 10 ∷ []) ≡ (c ∷ s) ++ 10 ∷ []
trim_left_newline c s h = trim_codes-printing c (s ++ 10 ∷ []) h

-- TrimSpace leaves printing ASCII as it is.
pub trim_space-printing : (s : Text) → all is_printing s ≡ true → trim_space s ≡ s
unfolding trim_space
trim_space-printing s h =
    rw
      (
        trim_left s h,
        trim_codes-backwards (reverse_bytes s []) (all-reverse_bytes is_printing s [] h refl),
      )
      (reverse_twice s [] [] ∙ append-nil s)

reverse_newline : (s out : Text) → reverse_bytes (s ++ 10 ∷ []) out ≡ 10 ∷ reverse_bytes s out
unfolding reverse_bytes
reverse_newline [] out = refl
reverse_newline (c ∷ s) out = reverse_newline s (c ∷ out)

-- TrimSpace takes a new line at the end away.
pub trim_space-newline :
    (c : ℕ) (s : Text) → all is_printing (c ∷ s) ≡ true → trim_space ((c ∷ s) ++ 10 ∷ []) ≡ c ∷ s
unfolding trim_space
trim_space-newline c s h =
    rw
      (
        trim_left_newline c s (and-true _ _ h).0,
        reverse_newline (c ∷ s) [],
        trim_codes-newline (reverse_bytes (c ∷ s) []),
        trim_codes-backwards (reverse_bytes (c ∷ s) [])
            (all-reverse_bytes is_printing (c ∷ s) [] h refl),
      )
      (reverse_twice (c ∷ s) [] [] ∙ append-nil (c ∷ s))
