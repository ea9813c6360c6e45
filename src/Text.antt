-- ===== src/Text.antt =====
-- Go strings as lists of bytes, and the functions of package `strings` that the program uses.
pub mod Paths
pub mod Numbers
pub mod Trim
pub mod Bytes
use Prim.Native.Char.{code}
use Prim.Native.String.{String}
use datum.Prelude.{
  Eq, ℕ, ◌≡◌, ◌↔◌, refl, Bool, true, false, ◌&&◌, ◌||◌, Option, none, some, List, [], ◌∷◌, ◌++◌,
  arith, if◌then◌else◌, eqb, ltb, zero, suc, ◌-◌, length,
}

abbrev pub Text : Type 0
Text = List ℕ

-- The bytes of an ASCII literal.
abbrev pub bytes : String → Text
bytes String.[] = []
bytes (String.◌∷◌ c s) = code c ∷ bytes s

unfoldable pub text_beq : Text → Text → Bool
text_beq [] [] = true
text_beq [] (d ∷ t) = false
text_beq (c ∷ s) [] = false
text_beq (c ∷ s) (d ∷ t) = eqb c d && text_beq s t

text_beq_sound : (s t : Text) → text_beq s t ≡ true → s ≡ t
unfolding text_beq
text_beq_sound [] [] h = refl
text_beq_sound [] (d ∷ t) h = cc
text_beq_sound (c ∷ s) [] h = cc
text_beq_sound (c ∷ s) (d ∷ t) h = ground (arith, text_beq_sound s t)

text_beq_refl : (s : Text) → text_beq s s ≡ true
unfolding text_beq
text_beq_refl [] = refl
text_beq_refl (c ∷ s) = ground (arith, text_beq_refl s)

pub text_beq_iff : (s t : Text) → (text_beq s t ≡ true) ↔ (s ≡ t)
text_beq_iff s t = (text_beq_sound s t, λ e. rw e (text_beq_refl t))

instance abbrev pub text_eq : Eq Text
text_eq = record { beq = text_beq; beq_iff = text_beq_iff }

-- `<` on strings: byte by byte, a proper prefix first.
unfoldable pub text_lt : Text → Text → Bool
text_lt s [] = false
text_lt [] (d ∷ t) = true
text_lt (c ∷ s) (d ∷ t) = ltb c d || eqb c d && text_lt s t

unfoldable pub starts_with : Text → Text → Bool
starts_with s [] = true
starts_with [] (d ∷ t) = false
starts_with (c ∷ s) (d ∷ t) = eqb c d && starts_with s t

-- strings.HasSuffix, for a suffix of one byte
unfoldable pub ends_with : Text → ℕ → Bool
ends_with [] b = false
ends_with (c ∷ []) b = eqb c b
ends_with (c ∷ d ∷ s) b = ends_with (d ∷ s) b

-- The text up to the first separator, and the rest as texts: strings.Split is their `∷`.
unfoldable pub split_parts : ℕ → Text → Text × List Text
split_parts separator [] = ([], [])
split_parts separator (c ∷ s) =
    let (part, parts) = split_parts separator s in
    if eqb c separator then ([], part ∷ parts) else (c ∷ part, parts)

-- strings.Split, for a separator of one byte
unfoldable pub split : ℕ → Text → List Text
unfolding split_parts
split separator s = let (part, parts) = split_parts separator s in part ∷ parts

-- strings.Join
unfoldable pub join : Text → List Text → Text
join separator [] = []
join separator (s ∷ []) = s
join separator (s ∷ t ∷ rest) = s ++ separator ++ join separator (t ∷ rest)

-- strings.IndexByte
unfoldable pub index_byte : Text → ℕ → Option ℕ
index_byte [] b = none
index_byte (c ∷ s) b =
    if eqb c b then some 0 else elim (index_byte s b) [ none ↦ none | some i ↦ some (suc i) ]

-- strings.Index
unfoldable pub index : Text → Text → Option ℕ
unfolding starts_with
index needle [] = if starts_with [] needle then some 0 else none
index needle (c ∷ s) =
    let rest = index needle s in
    if starts_with (c ∷ s) needle then some 0 else elim rest [ none ↦ none | some i ↦ some (suc i) ]

pub text_lt_irrefl : (s : Text) → text_lt s s ≡ false
unfolding text_lt
text_lt_irrefl [] = refl
text_lt_irrefl (c ∷ s) = ground (arith, text_lt_irrefl s)

pub text_lt_trans : (s t u : Text) → text_lt s t ≡ true → text_lt t u ≡ true → text_lt s u ≡ true
unfolding text_lt
text_lt_trans s [] u h k = cc
text_lt_trans s (d ∷ t) [] h k = cc
text_lt_trans [] (d ∷ t) (f ∷ u) h k = refl
text_lt_trans (c ∷ s) (d ∷ t) (f ∷ u) h k = ground (arith, text_lt_trans s t u)

-- Two different texts are ordered one way or the other.
pub text_lt_total : (s t : Text) → text_lt s t ≡ false → text_lt t s ≡ false → s ≡ t
unfolding text_lt
text_lt_total [] [] h k = refl
text_lt_total [] (d ∷ t) h k = cc
text_lt_total (c ∷ s) [] h k = cc
text_lt_total (c ∷ s) (d ∷ t) h k = ground (arith, text_lt_total s t)
