-- ===== src/Config/Sizes.antt =====
-- internal/config/scalars.go: sizes with binary units.
pub mod RoundTrip
use datum.Prelude.{
  Eq, ◌==◌, ℕ, ◌+◌, ◌-◌, ◌*◌, ◌/◌, ◌%◌, Bool, true, false, not, ◌&&◌, ◌||◌, Option, none, some,
  List, [], ◌∷◌, ◌++◌, length, take, drop, ltb, leb, eqb, if◌then◌else◌,
}
use datum.Prelude.Int.{ℤ, pos, negsuc}
use datum.Text.{Text, text_eq, bytes}
use datum.Text.Trim.{trim_space}
use datum.Text.Numbers.{parse_int, int64_bound, format_int}

-- units: a suffix, and the bytes of one
abbrev pub units : List (Text × ℕ)
units =
    (bytes "KiB", 1024)
    ∷ (bytes "MiB", 1048576)
    ∷ (bytes "GiB", 1073741824)
    ∷ (bytes "TiB", 1099511627776)
    ∷ (bytes "KB", 1024)
    ∷ (bytes "MB", 1048576)
    ∷ (bytes "GB", 1073741824)
    ∷ (bytes "TB", 1099511627776)
    ∷ (bytes "K", 1024)
    ∷ (bytes "M", 1048576)
    ∷ (bytes "G", 1073741824)
    ∷ (bytes "T", 1099511627776)
    ∷ (bytes "B", 1)
    ∷ []

-- An ASCII letter as a small one. strings.EqualFold also takes the Kelvin sign for a K, but that
-- sign alone fills the three bytes that are compared with a suffix, and the rest of it is missing.
unfoldable pub lower : ℕ → ℕ
lower c = if leb b'A' c && leb c b'Z' then c + 32 else c

-- strings.EqualFold, of texts of one length
unfoldable pub equal_fold : Text → Text → Bool
unfolding lower
equal_fold [] [] = true
equal_fold [] (d ∷ t) = false
equal_fold (c ∷ s) [] = false
equal_fold (c ∷ s) (d ∷ t) = eqb (lower c) (lower d) && equal_fold s t

-- cutSuffixFold; `none` is its second result false
unfoldable pub cut_suffix_fold : Text → Text → Option Text
unfolding equal_fold
cut_suffix_fold text suffix =
    if ltb (length text) (length suffix)
    then none
    else if not (equal_fold (drop (length text - length suffix) text) suffix)
    then none
    else some (take (length text - length suffix) text)

-- The limits of ParseSize on a count of units.
unfoldable pub scaled : ℤ → ℕ → Option ℕ
scaled (pos n) scale = if ltb (9223372036854775807 / scale) n then none else some (n * scale)
scaled (negsuc n) scale = none

-- The loop of ParseSize over the units. `parse_float` is its second attempt, with strconv.ParseFloat:
-- the bytes of a fraction of units.
module _ (parse_float : Text → ℕ → Option ℕ) where
  unfoldable pub parse_units : Text → List (Text × ℕ) → Option ℕ
  unfolding cut_suffix_fold trim_space parse_int scaled
  parse_units trimmed [] = elim (parse_int 10 int64_bound trimmed) [
    | none ↦ none
    | some n ↦ scaled n 1
  ]
  parse_units trimmed ((suffix, scale) ∷ rest) =
      let more = parse_units trimmed rest in
      elim (cut_suffix_fold trimmed suffix) [
        | none ↦ more
        | some digits ↦ elim (parse_int 10 int64_bound (trim_space digits)) [
          | some n ↦ scaled n scale
          | none ↦ parse_float (trim_space digits) scale
        ]
      ]

  -- ParseSize; `none` is an error
  unfoldable pub parse_size : Text → Option ℕ
  unfolding trim_space parse_units
  parse_size text =
      let trimmed = trim_space text in if trimmed == [] then none else parse_units trimmed units

  -- Size's UnmarshalYAML: the node as a whole number, if it is one, and its text.
  unfoldable pub decode_size : Option ℤ → Option Text → Option ℕ
  unfolding parse_size
  decode_size (some (pos n)) text = some n
  decode_size (some (negsuc n)) text = none
  decode_size none none = none
  decode_size none (some text) = parse_size text

-- The loop of Size.String, over the binary units from the largest.
unfoldable pub size_unit : ℕ → List (Text × ℕ) → Text
unfolding format_int
size_unit size [] = format_int size ++ bytes "B"
size_unit size ((suffix, scale) ∷ rest) =
    let more = size_unit size rest in
    if leb scale size && eqb (size % scale) 0 then format_int (size / scale) ++ suffix else more

abbrev pub binary_units : List (Text × ℕ)
binary_units =
    (bytes "TiB", 1099511627776)
    ∷ (bytes "GiB", 1073741824)
    ∷ (bytes "MiB", 1048576)
    ∷ (bytes "KiB", 1024)
    ∷ []

-- Size.String
unfoldable pub size_string : ℕ → Text
unfolding size_unit
size_string size = size_unit size binary_units
