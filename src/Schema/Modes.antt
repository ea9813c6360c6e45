-- ===== src/Schema/Modes.antt =====
-- What checkMode of internal/schema/validate.go decides of the digits of a mode.
use datum.Prelude.{
  ℕ, ◌+◌, ◌*◌, ◌/◌, ◌%◌, ◌<◌, ◌≡◌, refl, ap, ◌∙◌, true, ◌&&◌, some, [], ◌∷◌, eqb, leb, arith,
  if◌then◌else◌,
}
use datum.Prelude.Int.{pos}
use datum.Text.{Text, text_eq}
use datum.Text.Numbers.{digit, read_digits, read_unsigned, signed, parse_int, int32_bound}
use datum.Document.Value.{Value}
use datum.Schema.Checks.{
  privileged_mode, world_writable, allowed, system_path, has_bit, is_privileged, is_world_writable,
  check_bits, check_mode,
}

read_digit :
    (n d : ℕ) (s : Text) → d < 8 → read_digits 8 n ((b'0' + d) ∷ s) ≡ read_digits 8 (n * 8 + d) s
unfolding read_digits digit
read_digit n d s h = ground arith

read_nil : (n : ℕ) → read_digits 8 n [] ≡ some n
unfolding read_digits
read_nil n = refl

parse_int-read :
    (bound d n : ℕ) (s : Text)
    → d < 8
    → n < bound
    → read_digits 8 0 ((b'0' + d) ∷ s) ≡ some n
    → parse_int 8 bound ((b'0' + d) ∷ s) ≡ some (pos n)
unfolding parse_int read_unsigned signed
parse_int-read bound d n s hd hn e = ground (arith, e)

-- The number of an octal mode.
abbrev pub octal : ℕ → ℕ → ℕ → ℕ → ℕ
octal a b c d = ((a * 8 + b) * 8 + c) * 8 + d

-- The text of an octal mode.
abbrev pub mode_text : ℕ → ℕ → ℕ → ℕ → Text
mode_text a b c d = (b'0' + a) ∷ (b'0' + b) ∷ (b'0' + c) ∷ (b'0' + d) ∷ []

read_digits-octal :
    (a b c d : ℕ)
    → a < 8
    → b < 8
    → c < 8
    → d < 8
    → read_digits 8 0 (mode_text a b c d) ≡ some (octal a b c d)
read_digits-octal a b c d ha hb hc hd =
    rw
      (
        read_digit 0 a _ ha,
        read_digit (0 * 8 + a) b _ hb,
        read_digit ((0 * 8 + a) * 8 + b) c _ hc,
        read_digit (((0 * 8 + a) * 8 + b) * 8 + c) d [] hd,
      )
      (read_nil (octal (0 * 8 + a) b c d) ∙ ap (λ (n : ℕ). some (octal n b c d)) (omega arith))

parse_int-octal :
    (a b c d : ℕ)
    → a < 8
    → b < 8
    → c < 8
    → d < 8
    → parse_int 8 int32_bound (mode_text a b c d) ≡ some (pos (octal a b c d))
parse_int-octal a b c d ha hb hc hd =
    parse_int-read int32_bound a (octal a b c d) _ ha (omega arith)
      (read_digits-octal a b c d ha hb hc hd)

-- The first digit carries the setuid and setgid bits.
privileged_digit :
    (a b c d : ℕ) → a < 8 → b < 8 → c < 8 → d < 8 → is_privileged (pos (octal a b c d)) ≡ leb 2 a
unfolding is_privileged has_bit
privileged_digit a b c d ha hb hc hd = ground arith

-- The last digit carries the bit that lets everyone write.
world_digit :
    (a b c d : ℕ)
    → a < 8
    → b < 8
    → c < 8
    → d < 8
    → is_world_writable (pos (octal a b c d)) ≡ eqb (d / 2 % 2) 1
unfolding is_world_writable has_bit
world_digit a b c d ha hb hc hd = ground arith

-- A quoted mode of four octal digits is refused exactly if `allowPrivileged` is not true and it
-- either has a first digit of at least two, which holds setuid or setgid, or has the write bit in
-- its last digit under a path of the system; every other such mode is accepted.
pub check_mode-octal :
    (desired : Value) (a b c d : ℕ)
    → a < 8
    → b < 8
    → c < 8
    → d < 8
    → check_mode desired (mode_text a b c d) true ≡ (
        if allowed desired
        then []
        else if leb 2 a
        then privileged_mode ∷ []
        else if eqb (d / 2 % 2) 1 && system_path desired
        then world_writable ∷ []
        else [])
unfolding check_mode check_bits
check_mode-octal desired a b c d ha hb hc hd =
    rw
      (
        parse_int-octal a b c d ha hb hc hd,
        privileged_digit a b c d ha hb hc hd,
        world_digit a b c d ha hb hc hd,
      )
      (ground arith)
