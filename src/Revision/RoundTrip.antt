-- ===== src/Revision/RoundTrip.antt =====
-- internal/revision/revision.go: what is recorded is read back.
use datum.Prelude.{
  ◌==◌, ==_refl, ◌≡◌, refl, ap, ◌∙◌, inl, inr, Bool, true, false, not, ◌&&◌, Option-cases, none,
  is_some, [], ◌∷◌, ◌++◌, all, arith, if◌then◌else◌,
}
use datum.Text.{Text, text_eq}
use datum.Text.Trim.{is_printing, trim_space-newline}
use datum.Revision.{
  Stored, contents, is_hex, validate_revision, accepted, read_value, read, Attempts, write_atomic,
  advance,
}

is_hex-printing : (s : Text) → all is_hex s ≡ true → all is_printing s ≡ true
unfolding is_hex is_printing
is_hex-printing [] h = refl
is_hex-printing (c ∷ s) h = ground (arith, is_hex-printing s)

-- What validate accepts is not empty and is hexadecimal.
validate_revision-none :
    (rev : Text) → validate_revision rev ≡ none → ((rev == []) ≡ false) × (all is_hex rev ≡ true)
unfolding validate_revision
validate_revision-none rev h = (ground (arith, h), ground (arith, h))

read_value-valid : (rev : Text) → validate_revision rev ≡ none → read_value rev ≡ accepted rev
unfolding read_value
read_value-valid rev h = ground (arith, h, (validate_revision-none rev h).0)

-- A file that Advance wrote is read as the revision.
read-written :
    (rev : Text) → validate_revision rev ≡ none → read (contents (rev ++ 10 ∷ [])) ≡ accepted rev
unfolding read
read-written [] h =
    absurd (ground (arith, (validate_revision-none [] h).0, ==_refl ⦃test = text_eq⦄ []))
read-written (c ∷ s) h =
    ap read_value
      (trim_space-newline c s (is_hex-printing (c ∷ s) (validate_revision-none (c ∷ s) h).1))
    ∙ read_value-valid (c ∷ s) h

-- Whether Advance can record: the revision is valid and no step of writing it fails.
unfoldable pub records : Attempts → Text → Bool
unfolding validate_revision
records attempts rev =
    not (is_some (validate_revision rev))
    && (attempts.ensured && (attempts.written && attempts.renamed))

-- Advance reports an error unless the revision is valid and each step of writing succeeds. After a
-- success Read gives back the revision that was recorded, and after an error it gives what it gave
-- before.
pub read-advance :
    (attempts : Attempts) (rev : Text) (stored : Stored)
    → (is_some (advance attempts rev stored).0 ≡ not (records attempts rev))
      × (read (advance attempts rev stored).1
          ≡ (if records attempts rev then accepted rev else read stored))
unfolding advance write_atomic records
read-advance attempts rev stored = elim (Option-cases (validate_revision rev)) [
  | inl e ↦ (ground (arith, e), ground (arith, e, read-written rev e))
  | inr (err, e) ↦ (ground (arith, e), ground (arith, e))
]
