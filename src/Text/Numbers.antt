-- ===== src/Text/Numbers.antt =====
-- The functions of `strconv` and `strings` that read and print numbers.
pub mod RoundTrip
use datum.Prelude.{
  ℕ, zero, suc, ◌+◌, ◌-◌, ◌*◌, ◌/◌, ◌%◌, Bool, true, false, ◌&&◌, Option, none, some, [], ◌∷◌, ltb,
  leb, eqb, if◌then◌else◌,
}
use datum.Prelude.Int.{ℤ, pos, negsuc}
use datum.Text.{Text}

-- The value of a digit in a base of at most ten.
unfoldable pub digit : ℕ → ℕ → Option ℕ
digit base c = if leb b'0' c && ltb (c - b'0') base then some (c - b'0') else none

-- The value of digits after a value that was read before them.
unfoldable pub read_digits : ℕ → ℕ → Text → Option ℕ
unfolding digit
read_digits base n [] = some n
read_digits base n (c ∷ s) = elim (digit base c) [
  | none ↦ none
  | some d ↦ read_digits base (n * base + d) s
]

unfoldable pub read_unsigned : ℕ → Text → Option ℕ
unfolding read_digits
read_unsigned base [] = none
read_unsigned base (c ∷ s) = read_digits base 0 (c ∷ s)

-- A value that fits below the bound on its side.
unfoldable pub signed : Bool → ℕ → ℕ → Option ℤ
signed false bound n = if ltb n bound then some (pos n) else none
signed true bound n = if leb n bound then some (if eqb n 0 then pos 0 else negsuc (n - 1)) else none

-- strconv.ParseInt, where `bound` is 2^(bits - 1); `none` is any error
unfoldable pub parse_int : ℕ → ℕ → Text → Option ℤ
unfolding read_unsigned signed
parse_int base bound [] = none
parse_int base bound (c ∷ s) =
    if eqb c b'-'
    then elim (read_unsigned base s) [ none ↦ none | some n ↦ signed true bound n ]
    else if eqb c b'+'
    then elim (read_unsigned base s) [ none ↦ none | some n ↦ signed false bound n ]
    else elim (read_unsigned base (c ∷ s)) [ none ↦ none | some n ↦ signed false bound n ]

abbrev pub int32_bound : ℕ
int32_bound = 2147483648

abbrev pub int64_bound : ℕ
int64_bound = 9223372036854775808

-- The decimal digits before those that stand in `out`, on fuel.
unfoldable pub print_digits : ℕ → ℕ → Text → Text
print_digits zero n out = out
print_digits (suc f) n out =
    let rest = print_digits f (n / 10) ((b'0' + n % 10) ∷ out) in
    if ltb n 10 then (b'0' + n) ∷ out else rest

-- strconv.FormatInt of a number that is not negative. Each digit divides it by ten, so the rounds
-- are enough.
unfoldable pub format_int : ℕ → Text
unfolding print_digits
format_int n = print_digits (suc n) n []
