-- ===== src/Revision.antt =====
-- internal/revision/revision.go: the accepted revision of a host.
pub mod RoundTrip
use datum.Prelude.{
  Eq, ◌==◌, ℕ, Bool, true, false, not, ◌&&◌, ◌||◌, Option, none, some, List, [], ◌∷◌, ◌++◌, all,
  length, leb, eqb, if◌then◌else◌,
}
use datum.Text.{Text, text_eq, bytes}
use datum.Text.Trim.{trim_space}

-- What the path of the accepted revision holds.
pub data Stored : Type 0 where
  missing unreadable : Stored
  contents : Text → Stored

pub data RevisionError : Type 0 where
  empty_revision not_full not_hex : RevisionError
  read_failed ensure_failed write_failed remove_failed : RevisionError

-- isHex
unfoldable pub is_hex : ℕ → Bool
is_hex c = leb b'0' c && leb c b'9' || leb b'a' c && leb c b'f'

-- validate. It goes through runes, and a rune above 127 is coded by bytes above 127, so the test of
-- the bytes agrees.
unfoldable pub validate_revision : Text → Option RevisionError
unfolding is_hex
validate_revision rev =
    if rev == []
    then some empty_revision
    else if not (eqb (length rev) 40) && not (eqb (length rev) 64)
    then some not_full
    else if all is_hex rev
    then none
    else some not_hex

-- The results of Read: an error, no revision, or one.
pub data ReadResult : Type 0 where
  failed : RevisionError → ReadResult
  first_contact : ReadResult
  accepted : Text → ReadResult

-- Read, of the contents without the white space around them.
unfoldable pub read_value : Text → ReadResult
unfolding validate_revision
read_value value =
    if value == []
    then first_contact
    else elim (validate_revision value) [ some err ↦ failed err | none ↦ accepted value ]

-- Read
unfoldable pub read : Stored → ReadResult
unfolding read_value trim_space
read missing = first_contact
read unreadable = failed read_failed
read (contents text) = read_value (trim_space text)

-- Whether statedir.Ensure, os.WriteFile and os.Rename succeed.
pub record Attempts : Type 0 where
  pub ensured : Bool
  pub written : Bool
  pub renamed : Bool

-- writeAtomic, and what is at the path afterwards
unfoldable pub write_atomic : Attempts → Text → Stored → Option RevisionError × Stored
write_atomic attempts value stored =
    if attempts.written && attempts.renamed
    then (none, contents (value ++ 10 ∷ []))
    else (some write_failed, stored)

-- Advance
unfoldable pub advance : Attempts → Text → Stored → Option RevisionError × Stored
unfolding validate_revision write_atomic
advance attempts rev stored = elim (validate_revision rev) [
  | some err ↦ (some err, stored)
  | none ↦
      if not attempts.ensured
      then (some ensure_failed, stored)
      else write_atomic attempts rev stored
]

-- The revision that Clear returns: what Read finds, and none where it fails.
unfoldable pub previous : Stored → Option Text
unfolding read
previous stored = elim (read stored) [
  | accepted rev ↦ some rev
  | first_contact ↦ none
  | failed err ↦ none
]

-- Clear; `removed` tells whether os.Remove succeeds where there is a file
unfoldable pub clear : Bool → Stored → (Option RevisionError × Option Text) × Stored
unfolding previous
clear removed missing = ((none, none), missing)
clear removed stored =
    if removed then ((none, previous stored), missing) else ((some remove_failed, none), stored)
