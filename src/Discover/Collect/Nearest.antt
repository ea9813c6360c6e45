-- ===== src/Discover/Collect/Nearest.antt =====
-- internal/discover/discover.go: the layer that nearestLayer finds.
use datum.Prelude.{
  ◌==◌, ==_iff, ==_refl, ℕ, zero, suc, ◌<◌, ◌≤◌, ◌≡◌, refl, sym, ap, ◌∙◌, inl, inr, Bool, true,
  false, ◌||◌, Bool-cases, Option-cases, Option, none, some, [], ◌∷◌, ◌++◌, length, length-append,
  arith,
}
use datum.Map.{Map, lookup}
use datum.Text.{Text, text_eq, text_beq, starts_with}
use datum.Text.Paths.{before_last_slash}
use datum.Document.Documents.{Layer}
use datum.Discover.Collect.{nearest_from, nearest_layer}

-- A directory is above another one, or the same; the root is above every one.
unfoldable pub is_above : Text → Text → Bool
unfolding starts_with
is_above e dir = e == [] || (e == dir || starts_with dir (e ++ b'/' ∷ []))

-- The parent of a directory, with the root above the first level.
abbrev parent_of : Text → Text
parent_of dir = elim (before_last_slash dir) [ none ↦ [] | some p ↦ p ]

parent_some : (dir p : Text) → before_last_slash dir ≡ some p → parent_of dir ≡ p
parent_some dir p e = ap (λ (o : Option Text). elim o [ none ↦ [] | some q ↦ q ]) e

parent_none : (dir : Text) → before_last_slash dir ≡ none → parent_of dir ≡ []
parent_none dir e = ap (λ (o : Option Text). elim o [ none ↦ [] | some q ↦ q ]) e

-- A directory above another one ends before its last slash.
before_last-starts_with :
    (e dir : Text)
    → starts_with dir (e ++ b'/' ∷ []) ≡ true
    → (p : Text) × (before_last_slash dir ≡ some p)
      × ((e == p || starts_with p (e ++ b'/' ∷ [])) ≡ true)
unfolding starts_with before_last_slash text_beq
before_last-starts_with [] [] h = absurd (ground (arith, h))
before_last-starts_with (b ∷ e) [] h = absurd (ground (arith, h))
before_last-starts_with [] (c ∷ dir) h = elim (Option-cases (before_last_slash dir)) [
  | inl none_left ↦ ([], ground (arith, h, none_left), refl)
  | inr (p, found) ↦ (c ∷ p, rw found refl, ground (arith, h))
]
before_last-starts_with (b ∷ e) (c ∷ dir) h =
    let ih = before_last-starts_with e dir (ground (arith, h)) in
    (c ∷ ih.0, rw ih.1 refl, ground (arith, h, ih.2))

-- The parent is shorter.
before_last-length : (dir p : Text) → before_last_slash dir ≡ some p → length p < length dir
unfolding before_last_slash
before_last-length [] p h = absurd (ground (arith, h))
before_last-length (c ∷ dir) p h = elim (Option-cases (before_last_slash dir)) [
  | inl none_left ↦ ground (arith, h, none_left)
  | inr (q, found) ↦ ground (arith, h, found, before_last-length dir q found)
]

parent-length : (dir : Text) → (dir == []) ≡ false → length (parent_of dir) < length dir
unfolding text_beq
parent-length [] h = absurd (ground (arith, h))
parent-length (c ∷ dir) h = elim (Option-cases (before_last_slash (c ∷ dir))) [
  | inl e ↦ rw (parent_none (c ∷ dir) e) (omega arith)
  | inr (p, e) ↦ rw (parent_some (c ∷ dir) p e) (before_last-length (c ∷ dir) p e)
]

-- What is above a directory is the directory or above its parent.
is_above-parent :
    (e dir : Text) → is_above e dir ≡ true → (e == dir) ≡ false → is_above e (parent_of dir) ≡ true
unfolding is_above
is_above-parent e dir h other = elim (Bool-cases (e == [])) [
  | inl root ↦ ground (arith, root)
  | inr inner ↦
      let found = before_last-starts_with e dir (ground (arith, h, other, inner)) in
      rw (parent_some dir found.0 found.1) (ground (arith, found.2))
]

starts_with-parent :
    (dir p e : Text)
    → before_last_slash dir ≡ some p
    → (e == p || starts_with p (e ++ b'/' ∷ [])) ≡ true
    → starts_with dir (e ++ b'/' ∷ []) ≡ true
unfolding before_last_slash starts_with text_beq
starts_with-parent [] p e h k = absurd (ground (arith, h))
starts_with-parent (c ∷ dir) p [] h k = elim (Option-cases (before_last_slash dir)) [
  | inl none_left ↦ ground (arith, h, k, none_left)
  | inr (q, found) ↦ ground (arith, h, k, found)
]
starts_with-parent (c ∷ dir) p (b ∷ e) h k = elim (Option-cases (before_last_slash dir)) [
  | inl none_left ↦ absurd (ground (arith, h, k, none_left))
  | inr (q, found) ↦ ground (arith, h, k, found, starts_with-parent dir q e found, ==_iff e q)
]

is_above_root : (e : Text) → is_above e [] ≡ true → e ≡ []
unfolding is_above starts_with text_beq
is_above_root [] h = refl
is_above_root (b ∷ e) h = absurd (ground (arith, h))

-- What is above the parent is above the directory.
is_above_child : (e dir : Text) → is_above e (parent_of dir) ≡ true → is_above e dir ≡ true
unfolding is_above text_beq
is_above_child e dir h = elim (Option-cases (before_last_slash dir)) [
  | inl none_left ↦
      let root = is_above_root e (ap (is_above e) (sym (parent_none dir none_left)) ∙ h) in
      rw root refl
  | inr (p, found) ↦
      let at_parent = ap (is_above e) (sym (parent_some dir p found)) ∙ h in
      ground (arith, at_parent, starts_with-parent dir p e found)
]

starts_with-length : (s t : Text) → starts_with s t ≡ true → length t ≤ length s
unfolding starts_with
starts_with-length s [] h = omega arith
starts_with-length [] (d ∷ t) h = absurd (ground (arith, h))
starts_with-length (c ∷ s) (d ∷ t) h = ground (arith, h, starts_with-length s t)

is_above-length : (e dir : Text) → is_above e dir ≡ true → length e ≤ length dir
unfolding is_above
is_above-length e dir h = ground (
  arith,
  h,
  ==_iff e [],
  ==_iff e dir,
  starts_with-length dir (e ++ b'/' ∷ []),
  length-append e (b'/' ∷ []),
)

is_above_self : (dir : Text) → is_above dir dir ≡ true
unfolding is_above
is_above_self dir = ground (arith, ==_refl dir)

-- What nearestLayer finds: a layer of a directory above, with none in between.
pub data IsNearest (by_dir : Map Text Layer) (dir : Text) : Option Layer → Type 0 where
  found :
      {layer : Layer}
      → (at : Text) → is_above at dir ≡ true
      → lookup at by_dir ≡ some layer
      → ((e : Text) → is_above e dir ≡ true → length at < length e → lookup e by_dir ≡ none)
      → IsNearest by_dir dir (some layer)
  nowhere :
      ((e : Text) → is_above e dir ≡ true → lookup e by_dir ≡ none) → IsNearest by_dir dir none

-- A directory without a layer passes what holds of those above its parent.
missing_above :
    (by_dir : Map Text Layer) (dir e : Text)
    → lookup dir by_dir ≡ none
    → is_above e dir ≡ true
    → (is_above e (parent_of dir) ≡ true → lookup e by_dir ≡ none)
    → lookup e by_dir ≡ none
missing_above by_dir dir e missing above rest = elim (Bool-cases (e == dir)) [
  | inl same ↦ rw ((==_iff e dir).0 same) missing
  | inr other ↦ rest (is_above-parent e dir above other)
]

from_parent :
    (by_dir : Map Text Layer) (dir : Text)
    → lookup dir by_dir ≡ none
    → (o : Option Layer) → IsNearest by_dir (parent_of dir) o
    → IsNearest by_dir dir o
from_parent by_dir dir missing o (found at above here between) =
    found at (is_above_child at dir above) here
      (λ e k longer. missing_above by_dir dir e missing k (λ p. between e p longer))
from_parent by_dir dir missing o (nowhere all_missing) =
    nowhere (λ e k. missing_above by_dir dir e missing k (all_missing e))

nearest_from-IsNearest :
    (f : ℕ) (by_dir : Map Text Layer) (dir : Text)
    → length dir < f
    → IsNearest by_dir dir (nearest_from f by_dir dir)
unfolding nearest_from
nearest_from-IsNearest zero by_dir dir k = absurd (omega (arith, k))
nearest_from-IsNearest (suc f) by_dir dir k = elim (Option-cases (lookup dir by_dir)) [
  | inr (layer, here) ↦
      rw (here, nearest_from)
        (found dir (is_above_self dir) here
          (λ e above longer. absurd (omega (arith, longer, is_above-length e dir above))))
  | inl missing ↦ elim (Bool-cases (dir == [])) [
    | inl root ↦
        rw (missing, root, nearest_from)
          (nowhere (λ e above.
            let at_root = (==_iff dir []).0 root in
            rw (is_above_root e (ap (is_above e) (sym at_root) ∙ above))
              (ap (λ (d : Text). lookup d by_dir) (sym at_root) ∙ missing)))
    | inr inner ↦
        rw (missing, inner, nearest_from)
          (from_parent by_dir dir missing (nearest_from f by_dir (parent_of dir)) (
            nearest_from-IsNearest f by_dir (parent_of dir)
              (omega (arith, k, parent-length dir inner))))
  ]
]

-- The layer that nearestLayer finds is that of the directory itself or of the closest directory
-- above it that has one; it finds none only if no directory above has a layer.
pub nearest_layer-IsNearest :
    (by_dir : Map Text Layer) (dir : Text) → IsNearest by_dir dir (nearest_layer by_dir dir)
unfolding nearest_layer
nearest_layer-IsNearest by_dir dir =
    nearest_from-IsNearest (suc (length dir)) by_dir dir (omega arith)
