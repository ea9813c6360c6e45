-- ===== src/Document/Canonical.antt =====
-- internal/document/value.go: the deterministic encoding of a value, with encoding/json's quoting
-- of a string written out. The text is valid UTF-8, as SafeText demands.
use datum.Prelude.{ℕ, ◌+◌, ◌-◌, ◌/◌, ◌%◌, ◌&&◌, ◌||◌, [], ◌∷◌, ◌++◌, ltb, eqb, if◌then◌else◌}
use datum.Text.{Text, bytes}
use datum.Document.Value.{
  Value, scalar, list, map, Values, nil, cons, Fields, end, field, is_scalar, scalar_text,
}

hex_digit : ℕ → ℕ
hex_digit n = if ltb n 10 then b'0' + n else b'a' + n - 10

-- What json.Marshal writes for one byte of a string.
escape_byte : ℕ → Text
unfolding hex_digit
escape_byte c =
    if eqb c b'"'
    then bytes "\\" ++ c ∷ []
    else if eqb c 92
    then bytes "\\\\"
    else if eqb c 8
    then bytes "\\b"
    else if eqb c 12
    then bytes "\\f"
    else if eqb c 10
    then bytes "\\n"
    else if eqb c 13
    then bytes "\\r"
    else if eqb c 9
    then bytes "\\t"
    else if ltb c 32 || (eqb c b'<' || eqb c b'>' || eqb c b'&')
    then bytes "\\u00" ++ hex_digit (c / 16) ∷ hex_digit (c % 16) ∷ []
    else c ∷ []

-- The bytes of a string; the line separators U+2028 and U+2029 are escaped too.
escape : Text → Text
unfolding escape_byte
escape [] = []
escape (a ∷ []) = escape_byte a
escape (a ∷ b ∷ []) = escape_byte a ++ escape (b ∷ [])
escape (a ∷ b ∷ c ∷ s) =
    let plain = escape_byte a ++ escape (b ∷ c ∷ s) in
    let separator = bytes "\\u202" ++ (c - 112) ∷ escape s in
    if eqb a 226 && eqb b 128 && (eqb c 168 || eqb c 169) then separator else plain

-- writeJSONString
unfoldable pub json_string : Text → Text
unfolding escape
json_string s = bytes "\"" ++ escape s ++ bytes "\""

-- Value.Canonical. A map is written in the order of its keys, in which its entries stand.
unfoldable mutual
  unfolding json_string

  pub canonical : Value → Text
  canonical (scalar text q p) = json_string text
  canonical (list items p) = bytes "[" ++ canonical_items items ++ bytes "]"
  canonical (map fields p) = bytes "{" ++ canonical_fields fields ++ bytes "}"

  pub canonical_items : Values → Text
  canonical_items nil = []
  canonical_items (cons v nil) = canonical v
  canonical_items (cons v (cons w rest)) = canonical v ++ bytes "," ++ canonical_items (cons w rest)

  pub canonical_fields : Fields → Text
  canonical_fields end = []
  canonical_fields (field k v end) = json_string k ++ bytes ":" ++ canonical v
  canonical_fields (field k v (field j w rest)) =
      json_string k ++ bytes ":" ++ canonical v ++ bytes "," ++ canonical_fields (field j w rest)

-- The function `render` of internal/plan/diff.go and internal/resolve/merge.go.
unfoldable pub render : Value → Text
unfolding is_scalar scalar_text canonical
render v = if is_scalar v then scalar_text v else canonical v
