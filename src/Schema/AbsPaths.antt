-- ===== src/Schema/AbsPaths.antt =====
-- What checkAbsPath of internal/schema/validate.go accepts.
use datum.Prelude.{
  ◌==◌, ==_iff, ◌≡◌, refl, sym, ap, ◌∙◌, inl, inr, true, false, Bool-cases, none, List, [], ◌∷◌,
  all, Option-cases, length, ltb, arith,
}
use datum.Text.{Text, text_eq, text_beq, bytes, starts_with, split}
use datum.Text.Paths.{clean, is_abs}
use datum.Text.Paths.Clean.{is_plain, clean-plain}
use datum.Document.SafeText.{safe_text}
use datum.Schema.Checks.{
  check_components, check_path_components, trim_slash, check_abs_path, max_path_length,
}

check_components-plain :
    (value : Text) (cs : List Text)
    → (value == bytes "/") ≡ false
    → check_components value cs ≡ []
    → all is_plain cs ≡ true
unfolding check_components is_plain
check_components-plain value [] single h = refl
check_components-plain value (c ∷ cs) single h =
    let ih = check_components-plain value cs single in ground (arith, ih)

check_path_components-nil :
    (value : Text)
    → check_path_components value ≡ []
    → (safe_text value ≡ none) × (check_components value (split b'/' (trim_slash value)) ≡ [])
unfolding check_path_components
check_path_components-nil value h = elim (Option-cases (safe_text value)) [
  | inl e ↦ (e, ground (arith, e))
  | inr (err, e) ↦ absurd (ground (arith, e))
]

clean_root : clean (bytes "/") ≡ bytes "/"
unfolding clean text_beq
clean_root = refl

-- What checkAbsPath accepts passes each of its tests.
pub check_abs_path-nil :
    (value : Text)
    → check_abs_path value ≡ []
    → (starts_with value (bytes "/") ≡ true)
      × (ltb max_path_length (length value) ≡ false)
      × (safe_text value ≡ none)
      × (check_components value (split b'/' (trim_slash value)) ≡ [])
unfolding check_abs_path
check_abs_path-nil value h =
    let e : check_path_components value ≡ [] = ground arith in
    let both = check_path_components-nil value e in (ground arith, ground arith, both.0, both.1)

canonical_from :
    (value : Text)
    → starts_with value (bytes "/") ≡ true
    → (value == bytes "/") ≡ false
    → check_components value (split b'/' (trim_slash value)) ≡ []
    → clean value ≡ value
unfolding trim_slash starts_with
canonical_from [] rooted single h = cc
canonical_from (c ∷ s) rooted single h =
    let slash : c ≡ b'/' = ground arith in
    let below : trim_slash (c ∷ s) ≡ s = ground arith in
    let plain =
      check_components-plain (c ∷ s) (split b'/' s) single
        (ap (λ (t : Text). check_components (c ∷ s) (split b'/' t)) (sym below) ∙ h) in
    rw slash (clean-plain s plain)

-- An absolute path that validation accepts is the path that Clean makes of it, has no more than
-- MaxPathLength bytes and holds only safe text.
pub check_abs_path-clean :
    (value : Text)
    → check_abs_path value ≡ []
    → (is_abs value ≡ true)
      × (clean value ≡ value)
      × (ltb max_path_length (length value) ≡ false)
      × (safe_text value ≡ none)
unfolding is_abs
check_abs_path-clean value h =
    let passed = check_abs_path-nil value h in
    let canonical : clean value ≡ value = elim (Bool-cases (value == bytes "/")) [
      | inl e ↦ rw ((==_iff value (bytes "/")).0 e) clean_root
      | inr e ↦ canonical_from value passed.0 e passed.3
    ] in
    (passed.0, canonical, passed.1, passed.2)
