-- ===== src/Config/Durations.antt =====
-- internal/config/scalars.go: durations, with whole days.
use datum.Prelude.{
  ◌++◌, ◌==◌, ℕ, ◌+◌, ◌-◌, ◌*◌, ◌/◌, Option, none, some, [], ◌∷◌, length, take, drop, ltb,
  if◌then◌else◌,
}
use datum.Prelude.Int.{ℤ, pos, negsuc}
use datum.Text.{bytes, Text, text_eq}
use datum.Text.Trim.{trim_space}
use datum.Text.Numbers.{parse_int, int64_bound}

-- The nanoseconds of a day.
abbrev day : ℕ
day = 86400000000000

-- Days as nanoseconds, where they fit into 64 bits.
unfoldable pub days_of : ℤ → Option ℤ
days_of (pos n) = if ltb (9223372036854775807 / day) n then none else some (pos (n * day))
days_of (negsuc n) =
    if ltb (9223372036854775808 / day) (n + 1) then none else some (negsuc ((n + 1) * day - 1))

-- ParseDuration; `parse_time` is time.ParseDuration, and `none` an error.
module _ (parse_time : Text → Option ℤ) where
  unfoldable pub parse_days : Text → Option ℤ
  unfolding days_of parse_int
  parse_days text =
      if drop (length text - 1) text == b'd' ∷ []
      then elim (parse_int 10 int64_bound (take (length text - 1) text)) [
        | some n ↦ days_of n
        | none ↦ parse_time text
      ]
      else parse_time text

  unfoldable pub parse_duration : Text → Option ℤ
  unfolding parse_days trim_space
  parse_duration text =
      let trimmed = trim_space text in if trimmed == [] then none else parse_days trimmed

  -- Duration's UnmarshalYAML: `node` is the node's text, if it has one.
  unfoldable pub decode_duration : Option Text → Option ℤ
  unfolding parse_duration
  decode_duration none = none
  decode_duration (some text) = parse_duration text

-- strings.CutSuffix; `none` is its second result false
unfoldable pub cut_suffix : Text → Text → Option Text
cut_suffix text suffix =
    if ltb (length text) (length suffix)
    then none
    else if drop (length text - length suffix) text == suffix
    then some (take (length text - length suffix) text)
    else none

-- Duration's String, of the text that time.Duration prints
unfoldable pub duration_string : Text → Text
unfolding cut_suffix
duration_string text = elim (cut_suffix text (bytes "h0m0s")) [
  | some trimmed ↦ trimmed ++ bytes "h"
  | none ↦ elim (cut_suffix text (bytes "m0s")) [
    | some trimmed ↦ trimmed ++ bytes "m"
    | none ↦ text
  ]
]
