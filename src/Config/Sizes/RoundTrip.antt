-- ===== src/Config/Sizes/RoundTrip.antt =====
-- A size is read as it is printed.
use datum.Prelude.{
  ◌==◌, ℕ, zero, suc, ◌-◌, ◌/◌, ◌%◌, ◌<◌, ◌≡◌, refl, ap, ◌∙◌, inl, inr, true, false, ◌&&◌,
  Bool-cases, Option, none, some, List, [], ◌∷◌, ◌++◌, length, take, drop, take_all, drop_all,
  length-append, all, leb, eqb, arith, if◌then◌else◌,
}
use datum.Prelude.Int.{pos}
use datum.Text.{Text, text_eq, text_beq, bytes}
use datum.Text.Trim.{trim_space-printing, is_printing}
use datum.Text.Numbers.{int64_bound, format_int}
use datum.Text.Numbers.RoundTrip.{
  is_digit, is_cons, format_int-digits, format_int-cons, parse_int-format_int,
}
use datum.Config.Sizes.{
  units, lower, equal_fold, cut_suffix_fold, scaled, parse_units, parse_size, size_unit,
  size_string,
}

take_front : (s t : Text) (k : ℕ) → k ≡ length t → take (length (s ++ t) - k) (s ++ t) ≡ s
take_front s t k e =
    ap (λ (m : ℕ). take m (s ++ t)) (omega (arith, e, length-append s t)) ∙ take_all s t

drop_front : (s t : Text) (k : ℕ) → k ≡ length t → drop (length (s ++ t) - k) (s ++ t) ≡ t
drop_front s t k e =
    ap (λ (m : ℕ). drop m (s ++ t)) (omega (arith, e, length-append s t)) ∙ drop_all s t

-- Between texts of one length, a fold decides.
cut_front :
    (s t suffix : Text)
    → length suffix ≡ length t
    → cut_suffix_fold (s ++ t) suffix ≡ (if equal_fold t suffix then some s else none)
unfolding cut_suffix_fold
cut_front s t suffix e =
    rw (take_front s t (length suffix) e, drop_front s t (length suffix) e)
      (ground (arith, e, length-append s t))

-- A letter is found in no digits, and B alone is shorter than two letters.
fold_digits :
    (s : Text) (k c d : ℕ) (rest : Text)
    → all is_digit s ≡ true
    → is_digit (lower c) ≡ false
    → equal_fold (drop k (s ++ b'B' ∷ [])) (c ∷ d ∷ rest) ≡ false
unfolding equal_fold lower
fold_digits [] zero c d rest h e = ground arith
fold_digits [] (suc zero) c d rest h e = refl
fold_digits [] (suc (suc k)) c d rest h e = refl
fold_digits (x ∷ s) zero c d rest h e = ground (arith, h, e)
fold_digits (x ∷ s) (suc k) c d rest h e = fold_digits s k c d rest (ground (arith, h)) e

no_suffix :
    (text suffix : Text)
    → equal_fold (drop (length text - length suffix) text) suffix ≡ false
    → cut_suffix_fold text suffix ≡ none
unfolding cut_suffix_fold
no_suffix text suffix e = ground (arith, e)

digits_printing : (s : Text) → all is_digit s ≡ true → all is_printing s ≡ true
unfolding is_printing
digits_printing [] h = refl
digits_printing (c ∷ s) h = rw (digits_printing s (ground (arith, h))) (ground (arith, h))

printing_both :
    (s t : Text)
    → all is_digit s ≡ true
    → all is_printing t ≡ true
    → all is_printing (s ++ t) ≡ true
unfolding is_printing
printing_both [] t h k = k
printing_both (c ∷ s) t h k = rw (printing_both s t (ground (arith, h)) k) (ground (arith, h))

module _ (parse_float : Text → ℕ → Option ℕ) where
  -- A unit that the text does not end with is passed over.
  skip_unit :
      (text suffix : Text) (scale : ℕ) (rest : List (Text × ℕ))
      → cut_suffix_fold text suffix ≡ none
      → parse_units parse_float text ((suffix, scale) ∷ rest) ≡ parse_units parse_float text rest
  unfolding parse_units
  skip_unit text suffix scale rest e = rw (parse_units, e) refl

  skip_unlike :
      (s t suffix : Text) (scale : ℕ) (rest : List (Text × ℕ))
      → length suffix ≡ length t
      → equal_fold t suffix ≡ false
      → parse_units parse_float (s ++ t) ((suffix, scale) ∷ rest)
        ≡ parse_units parse_float (s ++ t) rest
  skip_unlike s t suffix scale rest e n =
      skip_unit (s ++ t) suffix scale rest (cut_front s t suffix e ∙ rw n refl)

  -- The count before the unit at hand is scaled.
  take_unit :
      (n scale : ℕ) (t suffix : Text) (rest : List (Text × ℕ))
      → n < int64_bound
      → length suffix ≡ length t
      → equal_fold t suffix ≡ true
      → parse_units parse_float (format_int n ++ t) ((suffix, scale) ∷ rest) ≡ scaled (pos n) scale
  unfolding parse_units
  take_unit n scale t suffix rest b e h =
      rw
        (
          parse_units,
          cut_front (format_int n) t suffix e,
          h,
          trim_space-printing (format_int n) (digits_printing (format_int n) (format_int-digits n)),
          parse_int-format_int int64_bound n b,
        )
        refl

  skip_letters :
      (n c d : ℕ) (more : Text) (scale : ℕ) (rest : List (Text × ℕ))
      → is_digit (lower c) ≡ false
      → parse_units parse_float (format_int n ++ b'B' ∷ []) ((c ∷ d ∷ more, scale) ∷ rest)
        ≡ parse_units parse_float (format_int n ++ b'B' ∷ []) rest
  skip_letters n c d more scale rest e =
      let text = format_int n ++ b'B' ∷ [] in
      skip_unit text (c ∷ d ∷ more) scale rest (
        no_suffix text (c ∷ d ∷ more) (
          fold_digits (format_int n) (length text - length (c ∷ d ∷ more)) c d more
            (format_int-digits n) e))

  nonempty_text : (s t : Text) → is_cons s ≡ true → (s ++ t) == [] ≡ false
  unfolding text_beq
  nonempty_text [] t h = absurd (ground (arith, h))
  nonempty_text (c ∷ s) t h = refl

  -- The text has no space to trim.
  parse_count :
      (n : ℕ) (t : Text)
      → all is_printing t ≡ true
      → parse_size parse_float (format_int n ++ t)
        ≡ parse_units parse_float (format_int n ++ t) units
  unfolding parse_size
  parse_count n t h =
      rw
        (
          trim_space-printing (format_int n ++ t)
              (printing_both (format_int n) t (format_int-digits n) h),
          nonempty_text (format_int n) t (format_int-cons n),
        )
        refl

  parse_letters :
      (n : ℕ)
      → n < int64_bound
      → parse_units parse_float (format_int n ++ bytes "B") (
          (bytes "K", 1024)
          ∷ (bytes "M", 1048576)
          ∷ (bytes "G", 1073741824)
          ∷ (bytes "T", 1099511627776)
          ∷ (bytes "B", 1)
          ∷ [])
        ≡ scaled (pos n) 1
  unfolding lower equal_fold
  parse_letters n h =
      skip_unlike (format_int n) (bytes "B") (bytes "K") 1024 _ refl refl
      ∙ (skip_unlike (format_int n) (bytes "B") (bytes "M") 1048576 _ refl refl
          ∙ (skip_unlike (format_int n) (bytes "B") (bytes "G") 1073741824 _ refl refl
              ∙ (skip_unlike (format_int n) (bytes "B") (bytes "T") 1099511627776 _ refl refl
                  ∙ take_unit n 1 (bytes "B") (bytes "B") _ h refl refl)))

  parse_bytes :
      (n : ℕ)
      → n < int64_bound
      → parse_size parse_float (format_int n ++ bytes "B") ≡ scaled (pos n) 1
  unfolding lower is_printing equal_fold
  parse_bytes n h =
      parse_count n (bytes "B") refl
      ∙ (skip_letters n b'K' b'i' (bytes "B") 1024 _ refl
          ∙ (skip_letters n b'M' b'i' (bytes "B") 1048576 _ refl
              ∙ (skip_letters n b'G' b'i' (bytes "B") 1073741824 _ refl
                  ∙ (skip_letters n b'T' b'i' (bytes "B") 1099511627776 _ refl
                      ∙ (skip_letters n b'K' b'B' [] 1024 _ refl
                          ∙ (skip_letters n b'M' b'B' [] 1048576 _ refl
                              ∙ (skip_letters n b'G' b'B' [] 1073741824 _ refl
                                  ∙ (skip_letters n b'T' b'B' [] 1099511627776 _ refl
                                      ∙ parse_letters n h))))))))

  parse_kib :
      (n : ℕ)
      → n < int64_bound
      → parse_size parse_float (format_int n ++ bytes "KiB") ≡ scaled (pos n) 1024
  unfolding lower is_printing equal_fold
  parse_kib n h =
      parse_count n (bytes "KiB") refl ∙ take_unit n 1024 (bytes "KiB") (bytes "KiB") _ h refl refl

  parse_mib :
      (n : ℕ)
      → n < int64_bound
      → parse_size parse_float (format_int n ++ bytes "MiB") ≡ scaled (pos n) 1048576
  unfolding lower is_printing equal_fold
  parse_mib n h =
      parse_count n (bytes "MiB") refl
      ∙ (skip_unlike (format_int n) (bytes "MiB") (bytes "KiB") 1024 _ refl refl
          ∙ take_unit n 1048576 (bytes "MiB") (bytes "MiB") _ h refl refl)

  parse_gib :
      (n : ℕ)
      → n < int64_bound
      → parse_size parse_float (format_int n ++ bytes "GiB") ≡ scaled (pos n) 1073741824
  unfolding lower is_printing equal_fold
  parse_gib n h =
      parse_count n (bytes "GiB") refl
      ∙ (skip_unlike (format_int n) (bytes "GiB") (bytes "KiB") 1024 _ refl refl
          ∙ (skip_unlike (format_int n) (bytes "GiB") (bytes "MiB") 1048576 _ refl refl
              ∙ take_unit n 1073741824 (bytes "GiB") (bytes "GiB") _ h refl refl))

  parse_tib :
      (n : ℕ)
      → n < int64_bound
      → parse_size parse_float (format_int n ++ bytes "TiB") ≡ scaled (pos n) 1099511627776
  unfolding lower is_printing equal_fold
  parse_tib n h =
      parse_count n (bytes "TiB") refl
      ∙ (skip_unlike (format_int n) (bytes "TiB") (bytes "KiB") 1024 _ refl refl
          ∙ (skip_unlike (format_int n) (bytes "TiB") (bytes "MiB") 1048576 _ refl refl
              ∙ (skip_unlike (format_int n) (bytes "TiB") (bytes "GiB") 1073741824 _ refl refl
                  ∙ take_unit n 1099511627776 (bytes "TiB") (bytes "TiB") _ h refl refl)))

  read_kib :
      (n : ℕ)
      → n < int64_bound
      → n % 1024 ≡ 0
      → parse_size parse_float (format_int (n / 1024) ++ bytes "KiB") ≡ some n
  unfolding scaled
  read_kib n h e = parse_kib (n / 1024) (omega (arith, h)) ∙ ground (arith, h, e)

  read_mib :
      (n : ℕ)
      → n < int64_bound
      → n % 1048576 ≡ 0
      → parse_size parse_float (format_int (n / 1048576) ++ bytes "MiB") ≡ some n
  unfolding scaled
  read_mib n h e = parse_mib (n / 1048576) (omega (arith, h)) ∙ ground (arith, h, e)

  read_gib :
      (n : ℕ)
      → n < int64_bound
      → n % 1073741824 ≡ 0
      → parse_size parse_float (format_int (n / 1073741824) ++ bytes "GiB") ≡ some n
  unfolding scaled
  read_gib n h e = parse_gib (n / 1073741824) (omega (arith, h)) ∙ ground (arith, h, e)

  read_tib :
      (n : ℕ)
      → n < int64_bound
      → n % 1099511627776 ≡ 0
      → parse_size parse_float (format_int (n / 1099511627776) ++ bytes "TiB") ≡ some n
  unfolding scaled
  read_tib n h e = parse_tib (n / 1099511627776) (omega (arith, h)) ∙ ground (arith, h, e)

  -- A size is printed with a unit that divides it, or with the one that follows.
  read_unit :
      (n scale : ℕ) (suffix : Text) (rest : List (Text × ℕ))
      → (n % scale ≡ 0 → parse_size parse_float (format_int (n / scale) ++ suffix) ≡ some n)
      → parse_size parse_float (size_unit n rest) ≡ some n
      → parse_size parse_float (size_unit n ((suffix, scale) ∷ rest)) ≡ some n
  unfolding size_unit
  read_unit n scale suffix rest one more = elim (Bool-cases (leb scale n && eqb (n % scale) 0)) [
    | inl e ↦ rw (size_unit, e) (one (ground (arith, e)))
    | inr e ↦ rw (size_unit, e) more
  ]

  read_plain :
      (n : ℕ) → n < int64_bound → parse_size parse_float (format_int n ++ bytes "B") ≡ some n
  unfolding scaled
  read_plain n h = parse_bytes n h ∙ ground (arith, h)

  -- ParseSize of what String prints of a size below 2^63 is that size.
  pub parse_size-size_string :
      (n : ℕ) → n < int64_bound → parse_size parse_float (size_string n) ≡ some n
  unfolding size_string size_unit
  parse_size-size_string n h =
      read_unit n 1099511627776 (bytes "TiB")
        ((bytes "GiB", 1073741824) ∷ (bytes "MiB", 1048576) ∷ (bytes "KiB", 1024) ∷ [])
        (read_tib n h)
        (read_unit n 1073741824 (bytes "GiB") ((bytes "MiB", 1048576) ∷ (bytes "KiB", 1024) ∷ [])
          (read_gib n h)
          (read_unit n 1048576 (bytes "MiB") ((bytes "KiB", 1024) ∷ []) (read_mib n h)
            (read_unit n 1024 (bytes "KiB") [] (read_kib n h) (read_plain n h))))
