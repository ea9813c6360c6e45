-- ===== src/Text/Numbers/RoundTrip.antt =====
-- Numbers are read as they are printed.
use datum.Prelude.{
  ℕ, zero, suc, ◌+◌, ◌*◌, ◌/◌, ◌%◌, ◌<◌, ◌≡◌, refl, ap, ◌∙◌, inl, inr, Bool, true, false, ◌&&◌,
  Bool-cases, some, [], ◌∷◌, all, ltb, leb, arith,
}
use datum.Prelude.Int.{pos}
use datum.Text.{Text}
use datum.Text.Numbers.{
  digit, read_digits, read_unsigned, signed, parse_int, print_digits, format_int,
}

abbrev pub is_digit : ℕ → Bool
is_digit c = leb b'0' c && leb c b'9'

read_digit :
    (n d : ℕ) (s : Text)
    → d < 10
    → read_digits 10 n ((b'0' + d) ∷ s) ≡ read_digits 10 (n * 10 + d) s
unfolding read_digits digit
read_digit n d s h = ground arith

-- With enough rounds the digits before a text are those of the number.
read-print_digits :
    (f n : ℕ) (out : Text) → n < f → read_digits 10 0 (print_digits f n out) ≡ read_digits 10 n out
unfolding print_digits
read-print_digits zero n out h = absurd (omega (arith, h))
read-print_digits (suc f) n out h = elim (Bool-cases (ltb n 10)) [
  | inl e ↦
      rw (e, print_digits)
        (read_digit 0 n out (ground (arith, e))
          ∙ ap (λ (k : ℕ). read_digits 10 k out) (omega arith))
  | inr e ↦
      rw (e, print_digits)
        (read-print_digits f (n / 10) ((b'0' + n % 10) ∷ out) (ground (arith, e, h))
          ∙ (read_digit (n / 10) (n % 10) out (omega arith)
              ∙ ap (λ (k : ℕ). read_digits 10 k out) (omega arith)))
]

all-print_digits :
    (f n : ℕ) (out : Text)
    → n < f
    → all is_digit out ≡ true
    → all is_digit (print_digits f n out) ≡ true
unfolding print_digits
all-print_digits zero n out h k = absurd (omega (arith, h))
all-print_digits (suc f) n out h k = elim (Bool-cases (ltb n 10)) [
  | inl e ↦ rw (e, print_digits) (ground (arith, e, k))
  | inr e ↦
      rw (e, print_digits)
        (all-print_digits f (n / 10) ((b'0' + n % 10) ∷ out) (ground (arith, e, h))
          (ground (arith, k)))
]

-- A text with at least one byte.
abbrev pub is_cons : Text → Bool
is_cons [] = false
is_cons (c ∷ s) = true

cons-print_digits : (f n : ℕ) (out : Text) → n < f → is_cons (print_digits f n out) ≡ true
unfolding print_digits
cons-print_digits zero n out h = absurd (omega (arith, h))
cons-print_digits (suc f) n out h = elim (Bool-cases (ltb n 10)) [
  | inl e ↦ rw (e, print_digits) refl
  | inr e ↦
      rw (e, print_digits)
        (cons-print_digits f (n / 10) ((b'0' + n % 10) ∷ out) (ground (arith, e, h)))
]

pub format_int-digits : (n : ℕ) → all is_digit (format_int n) ≡ true
unfolding format_int
format_int-digits n = all-print_digits (suc n) n [] (omega arith) refl

pub format_int-cons : (n : ℕ) → is_cons (format_int n) ≡ true
unfolding format_int
format_int-cons n = cons-print_digits (suc n) n [] (omega arith)

read-format_int : (n : ℕ) → read_digits 10 0 (format_int n) ≡ some n
unfolding format_int read_digits
read-format_int n = read-print_digits (suc n) n [] (omega arith)

parse_int-text :
    (bound n : ℕ) (s : Text)
    → n < bound
    → all is_digit s ≡ true
    → is_cons s ≡ true
    → read_digits 10 0 s ≡ some n
    → parse_int 10 bound s ≡ some (pos n)
unfolding parse_int read_unsigned signed
parse_int-text bound n [] h k c e = absurd (ground (arith, c))
parse_int-text bound n (d ∷ s) h k c e = ground (arith, h, k, e)

-- ParseInt reads what FormatInt prints of a number below the bound.
pub parse_int-format_int :
    (bound n : ℕ) → n < bound → parse_int 10 bound (format_int n) ≡ some (pos n)
parse_int-format_int bound n h =
    parse_int-text bound n (format_int n) h (format_int-digits n) (format_int-cons n)
      (read-format_int n)
