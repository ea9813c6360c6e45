-- ===== src/Text/Paths/Clean.antt =====
-- Paths that Clean leaves as they are.
use datum.Prelude.{
  ◌==◌, ℕ, ◌≡◌, refl, ◌∙◌, Bool, true, not, ◌&&◌, ◌||◌, List, [], ◌∷◌, ◌++◌, all, append-nil, arith,
}
use datum.Text.{Text, text_eq, text_beq, bytes, starts_with, split, split_parts, join}
use datum.Text.Paths.{is_abs, clean_step, clean_components, reverse_onto, components, clean}

-- A component that Clean keeps and that takes nothing back.
unfoldable pub is_plain : Text → Bool
is_plain c = not (c == []) && not (c == bytes ".." || c == bytes ".")

join_cons_cons :
    (separator p q : Text) (ps : List Text)
    → join separator (p ∷ q ∷ ps) ≡ p ++ separator ++ join separator (q ∷ ps)
unfolding join
join_cons_cons separator p q ps = refl

-- A byte before the first of the parts.
join_into_first :
    (separator : Text) (c : ℕ) (p : Text) (ps : List Text)
    → join separator ((c ∷ p) ∷ ps) ≡ c ∷ join separator (p ∷ ps)
unfolding join
join_into_first separator c p [] = refl
join_into_first separator c p (q ∷ ps) = refl

join-split_parts :
    (separator : ℕ) (s : Text)
    → join (separator ∷ []) ((split_parts separator s).0 ∷ (split_parts separator s).1) ≡ s
unfolding split_parts join
join-split_parts separator [] = refl
join-split_parts separator (c ∷ s) =
    let ih = join-split_parts separator s in
    let parts = split_parts separator s in
    ground (
      arith,
      ih,
      join_into_first (separator ∷ []) c parts.0 parts.1,
      join_cons_cons (separator ∷ []) [] parts.0 parts.1,
    )

-- strings.Join undoes strings.Split.
pub join-split : (separator : ℕ) (s : Text) → join (separator ∷ []) (split separator s) ≡ s
unfolding split
join-split separator s = join-split_parts separator s

clean_step-plain :
    (rooted : Bool) (kept : List Text) (c : Text)
    → is_plain c ≡ true
    → clean_step rooted kept c ≡ c ∷ kept
unfolding clean_step is_plain
clean_step-plain rooted kept c h = ground arith

clean_components-plain :
    (rooted : Bool) (kept cs : List Text)
    → all is_plain cs ≡ true
    → clean_components rooted kept cs ≡ reverse_onto cs kept
unfolding clean_components reverse_onto
clean_components-plain rooted kept [] h = refl
clean_components-plain rooted kept (c ∷ cs) h =
    let ih = clean_components-plain rooted (c ∷ kept) cs in
    ground (arith, ih, clean_step-plain rooted kept c)

reverse_onto_twice :
    (xs out acc : List Text) → reverse_onto (reverse_onto xs out) acc ≡ reverse_onto out (xs ++ acc)
unfolding reverse_onto
reverse_onto_twice [] out acc = refl
reverse_onto_twice (x ∷ xs) out acc = reverse_onto_twice xs (x ∷ out) acc

-- The components of a rooted path, without the empty one before the first slash.
pub components_rooted :
    (s : Text) → components (b'/' ∷ s) ≡ reverse_onto (clean_components true [] (split b'/' s)) []
unfolding components is_abs starts_with clean_components clean_step split split_parts text_beq
components_rooted s = refl

-- The components of a rooted path without `.`, `..` and empty components.
pub components-plain :
    (s : Text) → all is_plain (split b'/' s) ≡ true → components (b'/' ∷ s) ≡ split b'/' s
unfolding reverse_onto split
components-plain s h =
    components_rooted s
    ∙ rw (clean_components-plain true [] (split b'/' s) h)
        (reverse_onto_twice (split b'/' s) [] [] ∙ append-nil (split b'/' s))

-- Clean leaves such a path as it is.
pub clean-plain : (s : Text) → all is_plain (split b'/' s) ≡ true → clean (b'/' ∷ s) ≡ b'/' ∷ s
unfolding clean is_abs starts_with
clean-plain s h = rw (components-plain s h, join-split b'/' s) refl
