-- ===== src/Resolve/Substitute/Pieces.antt =====
-- internal/resolve/substitute.go: the replace_from of a text that is written from pieces.
use datum.Prelude.{
  ℕ, zero, suc, ◌+◌, ◌-◌, ◌<◌, ◌≡◌, refl, sym, ap, ◌∙◌, inl, inr, Bool, true, not, Option-cases,
  none, some, List, [], ◌∷◌, ◌++◌, append_assoc, all, and-true, take, drop, length, length-append,
  take_append, drop_append, take_all, eqb, arith,
}
use datum.Text.{Text, text_eq, bytes, starts_with, index}
use datum.Text.Trim.{trim_space}
use datum.Resolve.Substitute.{Substituter, fail, unclosed, expand, replace_from, substitute_text}

pub data Piece : Type 0 where
  literal placeholder : Text → Piece

-- A literal has no opening brace, and a placeholder no closing one.
unfoldable pub is_clean : Piece → Bool
is_clean (literal t) = all (λ b. not (eqb b b'{')) t
is_clean (placeholder p) = all (λ b. not (eqb b b'}')) p

abbrev pub in_braces : Text → Text
in_braces p = b'{' ∷ b'{' ∷ (p ++ b'}' ∷ b'}' ∷ [])

-- The text of the pieces.
unfoldable pub written : List Piece → Text
written [] = []
written (literal t ∷ ps) = t ++ written ps
written (placeholder p ∷ ps) = b'{' ∷ b'{' ∷ (p ++ b'}' ∷ b'}' ∷ written ps)

-- Each placeholder expanded once, in order, and the rest as it is.
unfoldable pub expand_pieces : List Piece → Substituter → Text × Substituter
unfolding expand
expand_pieces [] s = ([], s)
expand_pieces (literal t ∷ ps) s = let (rest, last) = expand_pieces ps s in (t ++ rest, last)
expand_pieces (placeholder p ∷ ps) s =
    let (value, after) = expand (trim_space p) (in_braces p) s in
    let (rest, last) = expand_pieces ps after in (value ++ rest, last)

index-literal :
    (t r : Text)
    → all (λ b. not (eqb b b'{')) t ≡ true
    → index (bytes "{{") (t ++ r)
      ≡ elim (index (bytes "{{") r) [ none ↦ none | some i ↦ some (length t + i) ]
unfolding index starts_with
index-literal [] r h = ground arith
index-literal (c ∷ t) r h = ground (arith, index-literal t r)

index-close :
    (p r : Text)
    → all (λ b. not (eqb b b'}')) p ≡ true
    → index (bytes "}}") (p ++ b'}' ∷ b'}' ∷ r) ≡ some (length p)
unfolding index starts_with
index-close [] r h = refl
index-close (c ∷ p) r h = ground (arith, index-close p r)

-- What one round of the replace_from does with a placeholder at `start`, closed `close` bytes later.
round : ℕ → Text → Text → Text → Substituter → ℕ → ℕ → Text × Substituter
round f whole out rest s start close =
    let found = trim_space (take (start + close - (start + 2)) (drop (start + 2) rest)) in
    let step = expand found (take (close + 2) (drop start rest)) s in
    replace_from f whole (out ++ (take start rest ++ step.0)) (drop (start + close + 2) rest) step.1

replace_from_none :
    (f : ℕ) (whole out rest : Text) (s : Substituter)
    → index (bytes "{{") rest ≡ none
    → replace_from f whole out rest s ≡ (out ++ rest, s)
unfolding replace_from
replace_from_none zero whole out rest s e = refl
replace_from_none (suc f) whole out rest s e = rw (e, replace_from) refl

replace_from_unclosed :
    (f : ℕ) (whole out rest : Text) (s : Substituter) (start : ℕ)
    → index (bytes "{{") rest ≡ some start
    → index (bytes "}}") (drop start rest) ≡ none
    → replace_from (suc f) whole out rest s ≡ (out ++ rest, fail (unclosed whole) s)
unfolding replace_from
replace_from_unclosed f whole out rest s start e k = rw (e, k, replace_from) refl

replace_from-round :
    (f : ℕ) (whole out rest : Text) (s : Substituter) (start close : ℕ)
    → index (bytes "{{") rest ≡ some start
    → index (bytes "}}") (drop start rest) ≡ some close
    → replace_from (suc f) whole out rest s ≡ round f whole out rest s start close
unfolding replace_from round
replace_from-round f whole out rest s start close e k = rw (e, k, replace_from) refl

round-literal :
    (f : ℕ) (whole out t r : Text) (s : Substituter) (start close : ℕ)
    → round f whole out (t ++ r) s (length t + start) close
      ≡ round f whole (out ++ t) r s start close
unfolding round
round-literal f whole out t r s start close =
    let width : length t + start + close - (length t + start + 2) ≡ start + close - (start + 2) =
      omega arith in
    let from : length t + start + 2 ≡ length t + (start + 2) = omega arith in
    let past : length t + start + close + 2 ≡ length t + (start + close + 2) = omega arith in
    rw
      (
        width,
        from,
        past,
        drop_append t r (start + 2),
        drop_append t r (start + close + 2),
        drop_append t r start,
        take_append t r start,
      )
      (simp append_assoc refl)

replace_from_stopped :
    (whole out t r : Text) (s : Substituter)
    → replace_from zero whole out (t ++ r) s ≡ replace_from zero whole (out ++ t) r s
unfolding replace_from
replace_from_stopped whole out t r s = ap (λ (o : Text). (o, s)) (sym (append_assoc out t r))

-- A literal goes to the output as it is.
replace_from-literal :
    (f : ℕ) (whole out t r : Text) (s : Substituter)
    → all (λ b. not (eqb b b'{')) t ≡ true
    → replace_from f whole out (t ++ r) s ≡ replace_from f whole (out ++ t) r s
replace_from-literal zero whole out t r s h = replace_from_stopped whole out t r s
replace_from-literal (suc f) whole out t r s h = elim (Option-cases (index (bytes "{{") r)) [
  | inl e ↦
      replace_from_none (suc f) whole out (t ++ r) s (index-literal t r h ∙ rw e refl)
      ∙ (ap (λ (o : Text). (o, s)) (sym (append_assoc out t r))
          ∙ sym (replace_from_none (suc f) whole (out ++ t) r s e))
  | inr (start, e) ↦
      let at : index (bytes "{{") (t ++ r) ≡ some (length t + start) =
        index-literal t r h ∙ rw e refl in
      elim (Option-cases (index (bytes "}}") (drop start r))) [
        | inl k ↦
            replace_from_unclosed f whole out (t ++ r) s (length t + start) at
              (ap (index (bytes "}}")) (drop_append t r start) ∙ k)
            ∙ (ap (λ (o : Text). (o, fail (unclosed whole) s)) (sym (append_assoc out t r))
                ∙ sym (replace_from_unclosed f whole (out ++ t) r s start e k))
        | inr (close, k) ↦
            replace_from-round f whole out (t ++ r) s (length t + start) close at
              (ap (index (bytes "}}")) (drop_append t r start) ∙ k)
            ∙ (round-literal f whole out t r s start close
                ∙ sym (replace_from-round f whole (out ++ t) r s start close e k))
      ]
]

nothing_open : index (bytes "{{") [] ≡ none
unfolding index starts_with
nothing_open = refl

index_open : (p : Text) → index (bytes "{{") (b'{' ∷ b'{' ∷ p) ≡ some 0
unfolding index starts_with
index_open p = refl

index_closed :
    (p r : Text)
    → all (λ b. not (eqb b b'}')) p ≡ true
    → index (bytes "}}") (b'{' ∷ b'{' ∷ (p ++ b'}' ∷ b'}' ∷ r)) ≡ some (suc (suc (length p)))
unfolding index starts_with
index_closed p r h = rw (index-close p r h) refl

closing : (p r : Text) → take (suc (suc (length p))) (p ++ b'}' ∷ b'}' ∷ r) ≡ p ++ b'}' ∷ b'}' ∷ []
closing [] r = refl
closing (c ∷ p) r = ap (λ (s : Text). c ∷ s) (closing p r)

past_closing : (p r : Text) → drop (suc (suc (length p))) (p ++ b'}' ∷ b'}' ∷ r) ≡ r
past_closing [] r = refl
past_closing (c ∷ p) r = past_closing p r

-- A placeholder is expanded, and what it gives is not scanned again.
replace_from-placeholder :
    (f : ℕ) (whole out p r : Text) (s : Substituter)
    → all (λ b. not (eqb b b'}')) p ≡ true
    → replace_from (suc f) whole out (b'{' ∷ b'{' ∷ (p ++ b'}' ∷ b'}' ∷ r)) s
      ≡ replace_from f whole
          (out ++ (expand (trim_space p) (in_braces p) s).0)
          r
          (expand (trim_space p) (in_braces p) s).1
unfolding round
replace_from-placeholder f whole out p r s h =
    let text : Text = b'{' ∷ b'{' ∷ (p ++ b'}' ∷ b'}' ∷ r) in
    let n = length p in
    let width : 0 + suc (suc n) - (0 + 2) ≡ n = omega arith in
    let lit : suc (suc n) + 2 ≡ suc (suc (suc (suc n))) = omega arith in
    let past : 0 + suc (suc n) + 2 ≡ suc (suc (suc (suc n))) = omega arith in
    replace_from-round f whole out text s 0 (suc (suc n)) (index_open (p ++ b'}' ∷ b'}' ∷ r))
      (index_closed p r h)
    ∙ rw (width, lit, past, take_all p (b'}' ∷ b'}' ∷ r), closing p r, past_closing p r) refl

replace_from-written :
    (f : ℕ) (whole out : Text) (ps : List Piece) (s : Substituter)
    → all is_clean ps ≡ true
    → length (written ps) < f
    → replace_from f whole out (written ps) s
      ≡ (out ++ (expand_pieces ps s).0, (expand_pieces ps s).1)
unfolding written expand_pieces is_clean
replace_from-written f whole out [] s h k = replace_from_none f whole out [] s nothing_open
replace_from-written f whole out (literal t ∷ ps) s h k =
    let parts = and-true _ (all is_clean ps) h in
    let ih =
      replace_from-written f whole (out ++ t) ps s parts.1
        (omega (arith, k, length-append t (written ps))) in
    replace_from-literal f whole out t (written ps) s parts.0
    ∙ (ih
        ∙ ap (λ (o : Text). (o, (expand_pieces ps s).1))
            (append_assoc out t (expand_pieces ps s).0))
replace_from-written zero whole out (placeholder p ∷ ps) s h k = absurd (omega (arith, k))
replace_from-written (suc f) whole out (placeholder p ∷ ps) s h k =
    let parts = and-true _ (all is_clean ps) h in
    let step = expand (trim_space p) (in_braces p) s in
    let ih =
      replace_from-written f whole (out ++ step.0) ps step.1 parts.1
        (omega (arith, k, length-append p (b'}' ∷ b'}' ∷ written ps))) in
    replace_from-placeholder f whole out p (written ps) s parts.0
    ∙ (ih
        ∙ ap (λ (o : Text). (o, (expand_pieces ps step.1).1))
            (append_assoc out step.0 (expand_pieces ps step.1).0))

substitute_text-replace_from :
    (whole : Text) (s : Substituter)
    → substitute_text whole s ≡ replace_from (suc (length whole)) whole [] whole s
unfolding substitute_text
substitute_text-replace_from whole s = elim (Option-cases (index (bytes "{{") whole)) [
  | inl e ↦
      rw (e, substitute_text) (sym (replace_from_none (suc (length whole)) whole [] whole s e))
  | inr (i, e) ↦ rw (e, substitute_text) refl
]

-- A text of literals and placeholders, where no literal has an opening brace and no placeholder a
-- closing one, becomes the literals as they are with each placeholder, trimmed, expanded once in
-- order: nothing that a label gives is read as a placeholder again.
pub substitute_text-written :
    (ps : List Piece) (s : Substituter)
    → all is_clean ps ≡ true
    → substitute_text (written ps) s ≡ expand_pieces ps s
substitute_text-written ps s h =
    substitute_text-replace_from (written ps) s
    ∙ replace_from-written (suc (length (written ps))) (written ps) [] ps s h (omega arith)
