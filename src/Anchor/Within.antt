-- ===== src/Anchor/Within.antt =====
-- internal/anchor/anchor.go: the tests of cleaned paths are tests of their components.
use datum.Prelude.{
  ◌==◌, ◌≡◌, refl, sym, ap, Bool, true, false, not, ◌&&◌, ◌||◌, List, [], ◌∷◌, ◌++◌, append_assoc,
  append-nil, and-true, all, eqb, arith,
}
use datum.Text.{Text, text_eq, text_beq, bytes, starts_with, split, split_parts, join}
use datum.Text.Paths.{is_abs, clean_step, clean_components, reverse_onto, components, clean}
use datum.Text.Paths.Clean.{components_rooted}
use datum.Anchor.{within}

-- A component: it is not empty and has no slash.
unfoldable pub is_component : Text → Bool
is_component c = not (c == []) && all (λ b. not (eqb b b'/')) c

abbrev no_slash : Text → Bool
no_slash c = all (λ b. not (eqb b b'/')) c

-- Each component after a slash.
unfoldable slashed : List Text → Text
slashed [] = []
slashed (c ∷ cs) = b'/' ∷ c ++ slashed cs

-- A list of components begins with another one.
unfoldable pub is_prefix : List Text → List Text → Bool
is_prefix [] cs = true
is_prefix (p ∷ ps) [] = false
is_prefix (p ∷ ps) (c ∷ cs) = p == c && is_prefix ps cs

-- A text that is empty or begins with a slash.
abbrev at_slash : Text → Bool
at_slash [] = true
at_slash (b ∷ s) = eqb b b'/'

word_beq :
    (p c x y : Text)
    → no_slash p ≡ true
    → no_slash c ≡ true
    → at_slash x ≡ true
    → at_slash y ≡ true
    → text_beq (p ++ x) (c ++ y) ≡ (text_beq p c && text_beq x y)
unfolding text_beq
word_beq [] [] x y hp hc hx hy = refl
word_beq [] (c ∷ cs) [] y hp hc hx hy = refl
word_beq [] (c ∷ cs) (b ∷ x) y hp hc hx hy = ground arith
word_beq (p ∷ ps) [] x [] hp hc hx hy = refl
word_beq (p ∷ ps) [] x (b ∷ y) hp hc hx hy = ground arith
word_beq (p ∷ ps) (c ∷ cs) x y hp hc hx hy = ground (arith, word_beq ps cs x y)

word-starts_with :
    (p c x y : Text)
    → no_slash p ≡ true
    → no_slash c ≡ true
    → at_slash y ≡ true
    → starts_with (c ++ y) (p ++ b'/' ∷ x) ≡ (text_beq p c && starts_with y (b'/' ∷ x))
unfolding text_beq starts_with
word-starts_with [] [] x y hp hc hy = refl
word-starts_with [] (c ∷ cs) x y hp hc hy = ground arith
word-starts_with (p ∷ ps) [] x [] hp hc hy = refl
word-starts_with (p ∷ ps) [] x (b ∷ y) hp hc hy = ground arith
word-starts_with (p ∷ ps) (c ∷ cs) x y hp hc hy = ground (arith, word-starts_with ps cs x y)

slashed-at_slash : (cs : List Text) → at_slash (slashed cs) ≡ true
unfolding slashed
slashed-at_slash [] = refl
slashed-at_slash (c ∷ cs) = refl

slashed_slash : (ps : List Text) → (t : Text) × (slashed ps ++ b'/' ∷ [] ≡ b'/' ∷ t)
unfolding slashed
slashed_slash [] = ([], refl)
slashed_slash (p ∷ ps) = (_, refl)

-- The step of `within` from one component to the rest.
slashed-starts_with :
    (p c : Text) (ps cs : List Text)
    → no_slash p ≡ true
    → no_slash c ≡ true
    → starts_with (slashed (c ∷ cs)) (slashed (p ∷ ps) ++ b'/' ∷ [])
      ≡ (text_beq p c && starts_with (slashed cs) (slashed ps ++ b'/' ∷ []))
unfolding slashed starts_with
slashed-starts_with p c ps cs hp hc =
    let (t, e) = slashed_slash ps in
    rw (append_assoc p (slashed ps) (b'/' ∷ []), e)
      (word-starts_with p c t (slashed cs) hp hc (slashed-at_slash cs))

slashed_beq_step :
    (p c : Text) (ps cs : List Text)
    → no_slash p ≡ true
    → no_slash c ≡ true
    → text_beq (slashed (p ∷ ps)) (slashed (c ∷ cs))
      ≡ (text_beq p c && text_beq (slashed ps) (slashed cs))
unfolding slashed text_beq
slashed_beq_step p c ps cs hp hc =
    word_beq p c (slashed ps) (slashed cs) hp hc (slashed-at_slash ps) (slashed-at_slash cs)

components_cons :
    (c : Text) (cs : List Text)
    → all is_component (c ∷ cs) ≡ true
    → (no_slash c ≡ true) × ((c == []) ≡ false) × (all is_component cs ≡ true)
unfolding is_component
components_cons c cs h = (ground arith, ground arith, ground arith)

slashed_beq :
    (ps cs : List Text)
    → all is_component ps ≡ true
    → all is_component cs ≡ true
    → (text_beq (slashed ps) (slashed cs) || starts_with (slashed cs) (slashed ps ++ b'/' ∷ []))
      ≡ is_prefix ps cs
unfolding slashed is_prefix text_beq starts_with
slashed_beq [] [] hp hc = refl
slashed_beq [] (c ∷ cs) hp hc = refl
slashed_beq (p ∷ ps) [] hp hc = refl
slashed_beq (p ∷ ps) (c ∷ cs) hp hc =
    let p_parts = components_cons p ps hp in
    let c_parts = components_cons c cs hc in
    ground (
      arith,
      slashed_beq ps cs p_parts.2 c_parts.2,
      slashed_beq_step p c ps cs p_parts.0 c_parts.0,
      slashed-starts_with p c ps cs p_parts.0 c_parts.0,
    )

-- Joined components, with the slash of the root.
slashed-join : (c : Text) (cs : List Text) → slashed (c ∷ cs) ≡ b'/' ∷ join (bytes "/") (c ∷ cs)
unfolding slashed join
slashed-join c [] = ap (λ (t : Text). b'/' ∷ t) (append-nil c)
slashed-join c (d ∷ cs) =
    rw (slashed-join d cs)
      (ap (λ (t : Text). b'/' ∷ t) (sym (append_assoc c (bytes "/") (join (bytes "/") (d ∷ cs)))))

pub split_parts-no_slash :
    (s : Text)
    → (no_slash (split_parts b'/' s).0 ≡ true) × (all no_slash (split_parts b'/' s).1 ≡ true)
unfolding split_parts
split_parts-no_slash [] = (refl, refl)
split_parts-no_slash (c ∷ s) =
    let ih = split_parts-no_slash s in (ground (arith, ih.0, ih.1), ground (arith, ih.0, ih.1))

clean_step-is_component :
    (kept : List Text) (c : Text)
    → all is_component kept ≡ true
    → no_slash c ≡ true
    → all is_component (clean_step true kept c) ≡ true
unfolding clean_step is_component
clean_step-is_component [] c h k = ground arith
clean_step-is_component (last ∷ kept) c h k = ground arith

clean_components-is_component :
    (kept cs : List Text)
    → all is_component kept ≡ true
    → all no_slash cs ≡ true
    → all is_component (clean_components true kept cs) ≡ true
unfolding clean_components
clean_components-is_component kept [] h k = h
clean_components-is_component kept (c ∷ cs) h k =
    let parts = and-true (no_slash c) (all no_slash cs) k in
    clean_components-is_component (clean_step true kept c) cs
      (clean_step-is_component kept c h parts.0) parts.1

all-reverse_onto :
    (xs out : List Text)
    → all is_component xs ≡ true
    → all is_component out ≡ true
    → all is_component (reverse_onto xs out) ≡ true
unfolding reverse_onto
all-reverse_onto [] out h k = k
all-reverse_onto (x ∷ xs) out h k =
    let parts = and-true (is_component x) (all is_component xs) h in
    all-reverse_onto xs (x ∷ out) parts.1 (ground (arith, parts.0))

-- The components of a rooted path are components.
pub components-is_component :
    (path : Text) → is_abs path ≡ true → all is_component (components path) ≡ true
unfolding is_abs starts_with split
components-is_component [] h = cc
components-is_component (c ∷ s) h =
    let slash : c ≡ b'/' = ground arith in
    let parts = split_parts-no_slash s in
    rw (slash, components_rooted s)
      (all-reverse_onto (clean_components true [] (split b'/' s)) []
        (clean_components-is_component [] (split b'/' s) refl (ground (arith, parts.0, parts.1)))
        refl)

-- The path of cleaned components.
abbrev rooted : List Text → Text
rooted [] = bytes "/"
rooted (c ∷ cs) = slashed (c ∷ cs)

rooted-join : (cs : List Text) → b'/' ∷ join (bytes "/") cs ≡ rooted cs
unfolding join
rooted-join [] = refl
rooted-join (c ∷ cs) = sym (slashed-join c cs)

-- What Clean makes of a rooted path.
clean-rooted : (path : Text) → is_abs path ≡ true → clean path ≡ rooted (components path)
unfolding clean
clean-rooted path h = ground (arith, h, rooted-join (components path))

append-not_nil : (p x : Text) → (p == []) ≡ false → text_beq (p ++ x) [] ≡ false
unfolding text_beq
append-not_nil [] x h = cc
append-not_nil (b ∷ p) x h = refl

starts_with_nil : (t : Text) → (t == []) ≡ false → starts_with [] t ≡ false
unfolding starts_with text_beq
starts_with_nil [] h = cc
starts_with_nil (b ∷ t) h = refl

within-rooted :
    (ps cs : List Text)
    → all is_component ps ≡ true
    → all is_component cs ≡ true
    → within (rooted ps) (rooted cs) ≡ is_prefix ps cs
unfolding within is_prefix slashed starts_with text_beq
within-rooted [] [] hp hc = refl
within-rooted [] (c ∷ cs) hp hc = ground arith
within-rooted (p ∷ ps) [] hp hc =
    let parts = components_cons p ps hp in
    let found = append-not_nil p (slashed ps) parts.1 in
    ground (
      arith,
      found,
      starts_with_nil (p ++ slashed ps ++ bytes "/")
          (append-not_nil (p ++ slashed ps) (bytes "/") found),
    )
within-rooted (p ∷ ps) (c ∷ cs) hp hc =
    let parts = components_cons p ps hp in
    ground (arith, slashed_beq (p ∷ ps) (c ∷ cs) hp hc, append-not_nil p (slashed ps) parts.1)

-- The text test of two cleaned paths is the test of their components: `within` holds exactly if the
-- parent's components begin the child's.
pub within-clean :
    (parent child : Text)
    → is_abs parent ≡ true
    → is_abs child ≡ true
    → within (clean parent) (clean child) ≡ is_prefix (components parent) (components child)
within-clean parent child hp hc =
    rw (clean-rooted parent hp, clean-rooted child hc)
      (within-rooted (components parent) (components child) (components-is_component parent hp)
        (components-is_component child hc))
