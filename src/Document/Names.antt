-- ===== src/Document/Names.antt =====
-- internal/document/names.go: which names are safe, and how a reference is read.
pub mod RoundTrip
use datum.Prelude.{
  ℕ, ◌-◌, ◌+◌, Bool, not, ◌&&◌, ◌||◌, Option, none, some, List, [], ◌∷◌, length, all, contains,
  take, drop, ltb, leb, eqb, if◌then◌else◌,
}
use datum.Text.{Text, text_eq, bytes, index_byte, ends_with}
use datum.Document.Reference.{Reference}

-- The keys of the map ResourceTypes.
abbrev pub resource_types : List Text
resource_types =
    bytes "Package"
    ∷ bytes "File"
    ∷ bytes "Directory"
    ∷ bytes "Symlink"
    ∷ bytes "Service"
    ∷ bytes "User"
    ∷ bytes "Group"
    ∷ bytes "Sysctl"
    ∷ bytes "Repository"
    ∷ []

abbrev pub max_name_length : ℕ
max_name_length = 256

-- The cases of the switch in ValidName. A rune above 127 is coded by bytes above 127, so the test
-- of the runes and that of the bytes agree.
unfoldable pub name_byte : ℕ → Bool
name_byte c =
    leb b'a' c && leb c b'z'
    || leb b'A' c && leb c b'Z'
    || leb b'0' c && leb c b'9'
    || (eqb c b'.' || eqb c b'-' || eqb c b'_' || eqb c b'+')

-- ValidName
unfoldable pub valid_name : Text → Bool
unfolding name_byte
valid_name s = not (eqb (length s) 0 || ltb max_name_length (length s)) && all name_byte s

-- ValidLabelKey, with strings.Cut at the first slash
unfoldable pub valid_label_key : Text → Bool
unfolding valid_name index_byte
valid_label_key s = elim (index_byte s b'/') [
  | none ↦ valid_name s
  | some i ↦ valid_name (take i s) && valid_name (drop (i + 1) s)
]

-- ResourceTypes[typeName]
unfoldable pub known_type : Text → Bool
unfolding contains
known_type t = contains resource_types t

-- ParseReference: the first `[` splits the type from the name, which the last byte `]` ends.
unfoldable pub parse_reference : Text → Option Reference
unfolding known_type valid_name index_byte
parse_reference s = elim (index_byte s b'[') [
  | none ↦ none
  | some i ↦
      let type_name = take i s in
      let after = drop (i + 1) s in
      let name = take (length after - 1) after in
      if eqb i 0 || not (ends_with s b']')
      then none
      else if not (known_type type_name) || not (valid_name name)
      then none
      else some (record { type = type_name; name = name })
]
