-- ===== src/Resolve/Merge/Refs.antt =====
-- internal/resolve/merge.go: lists of references are merged as sets.
use datum.Prelude.{
  ◌==◌, ==_iff, ◌≡◌, refl, sym, ap, ◌∙◌, false, ◌||◌, inl, inr, Bool-cases, List, [], ◌∷◌, ◌++◌,
  append_assoc, append-nil, contains, contains-count, count, count-append, IsDistinct, arith,
}
use datum.Document.Reference.{Reference, ref_eq}
use datum.Resolve.Merge.{append_refs, merge_refs}

contains_end :
    (xs : List Reference) (a x : Reference) → contains (xs ++ a ∷ []) x ≡ (contains xs x || a == x)
unfolding contains
contains_end [] a x = ground arith
contains_end (y ∷ xs) a x = ground (arith, contains_end xs a x)

append_refs-contains :
    (out refs : List Reference) (x : Reference)
    → contains (append_refs out refs) x ≡ (contains out x || contains refs x)
unfolding append_refs contains
append_refs-contains out [] x = ground arith
append_refs-contains out (a ∷ refs) x = ground (
  arith,
  append_refs-contains out refs x,
  append_refs-contains (out ++ a ∷ []) refs x,
  contains_end out a x,
  ==_iff a x,
)

end-IsDistinct :
    (xs : List Reference) (a : Reference)
    → contains xs a ≡ false
    → IsDistinct xs
    → IsDistinct (xs ++ a ∷ [])
unfolding count
end-IsDistinct xs a h distinct x = ground (
  arith,
  distinct x,
  count-append x xs (a ∷ []),
  ==_iff a x,
  contains-count xs a,
  ap (λ y. count y xs),
)

append_refs-IsDistinct :
    (out refs : List Reference) → IsDistinct out → IsDistinct (append_refs out refs)
unfolding append_refs
append_refs-IsDistinct out [] distinct = distinct
append_refs-IsDistinct out (a ∷ refs) distinct = elim (Bool-cases (contains out a)) [
  | inl e ↦ rw e (append_refs-IsDistinct out refs distinct)
  | inr e ↦ rw e (append_refs-IsDistinct (out ++ a ∷ []) refs (end-IsDistinct out a e distinct))
]

contains-nil : (x : Reference) → contains [] x ≡ false
unfolding contains
contains-nil x = refl

count-nil : (x : Reference) → count x [] ≡ 0
unfolding count
count-nil x = refl

append_refs-prefix :
    (out refs : List Reference) → (new : List Reference) × (append_refs out refs ≡ out ++ new)
unfolding append_refs
append_refs-prefix out [] = ([], sym (append-nil out))
append_refs-prefix out (a ∷ refs) = elim (Bool-cases (contains out a)) [
  | inl e ↦ rw e (append_refs-prefix out refs)
  | inr e ↦
      let (new, same) = append_refs-prefix (out ++ a ∷ []) refs in
      rw e (a ∷ new, same ∙ append_assoc out (a ∷ []) new)
]

-- Merged lists of references hold what either layer declared, nothing else and nothing twice, and
-- a later layer only adds at the end.
pub merge_refs-contains :
    (existing incoming : List Reference)
    → IsDistinct (merge_refs existing incoming)
      × ((x : Reference)
          → contains (merge_refs existing incoming) x
            ≡ (contains existing x || contains incoming x))
      × ((new : List Reference) × (merge_refs existing incoming ≡ merge_refs existing [] ++ new))
unfolding merge_refs append_refs
merge_refs-contains existing incoming = (
  append_refs-IsDistinct (append_refs [] existing) incoming
      (append_refs-IsDistinct [] existing (λ x. omega (arith, count-nil x))),
  (λ x. ground (
    arith,
    append_refs-contains (append_refs [] existing) incoming x,
    append_refs-contains [] existing x,
    contains-nil x,
  )),
  append_refs-prefix (append_refs [] existing) incoming,
)
