-- ===== src/Document/SafeText.antt =====
-- internal/document/names.go: SafeText. utf8.ValidString and the range over a string are `runes`.
use datum.Prelude.{
  ℕ, ◌+◌, ◌-◌, ◌*◌, Bool, not, ◌&&◌, ◌||◌, Option, none, some, List, [], ◌∷◌, ltb, leb, eqb,
  if◌then◌else◌,
}
use datum.Text.{Text}

-- A byte that continues a rune.
unfoldable pub continues : ℕ → Bool
continues c = leb 128 c && leb c 191

-- The rune that the first bytes code, and how many they are beyond the first.
unfoldable pub rune_of_two : ℕ → ℕ → Option ℕ
unfolding continues
rune_of_two a b =
    if leb 194 a && leb a 223 && continues b then some ((a - 192) * 64 + (b - 128)) else none

-- The second byte of a rune of three bytes: no long form of a shorter rune, and no surrogate.
unfoldable pub rune_of_three : ℕ → ℕ → ℕ → Option ℕ
unfolding continues
rune_of_three a b c =
    if leb 224 a
      && leb a 239
      && continues b
      && continues c
      && not (eqb a 224 && ltb b 160 || eqb a 237 && leb 160 b)
    then some ((a - 224) * 4096 + (b - 128) * 64 + (c - 128))
    else none

unfoldable pub rune_of_four : ℕ → ℕ → ℕ → ℕ → Option ℕ
unfolding continues
rune_of_four a b c d =
    if leb 240 a
      && leb a 244
      && continues b
      && continues c
      && continues d
      && not (eqb a 240 && ltb b 144 || eqb a 244 && leb 144 b)
    then some ((a - 240) * 262144 + (b - 128) * 4096 + (c - 128) * 64 + (d - 128))
    else none

abbrev with_rune : Option ℕ → Option (List ℕ) → Option (List ℕ)
with_rune (some r) (some rs) = some (r ∷ rs)
with_rune _ _ = none

-- The runes of a text, if it is valid UTF-8.
unfoldable pub runes : Text → Option (List ℕ)
unfolding rune_of_two rune_of_three rune_of_four
runes [] = some []
runes (a ∷ []) = if ltb a 128 then some (a ∷ []) else none
runes (a ∷ b ∷ []) =
    if ltb a 128 then with_rune (some a) (runes (b ∷ [])) else with_rune (rune_of_two a b) (some [])
runes (a ∷ b ∷ c ∷ []) =
    let one = with_rune (some a) (runes (b ∷ c ∷ [])) in
    let two = with_rune (rune_of_two a b) (runes (c ∷ [])) in
    let three = with_rune (rune_of_three a b c) (some []) in
    if ltb a 128 then one else if ltb a 224 then two else three
runes (a ∷ b ∷ c ∷ d ∷ s) =
    let one = with_rune (some a) (runes (b ∷ c ∷ d ∷ s)) in
    let two = with_rune (rune_of_two a b) (runes (c ∷ d ∷ s)) in
    let three = with_rune (rune_of_three a b c) (runes (d ∷ s)) in
    let four = with_rune (rune_of_four a b c d) (runes s) in
    if ltb a 128 then one else if ltb a 224 then two else if ltb a 240 then three else four

pub data TextError : Type 0 where
  not_utf8 nul_byte control_character direction_override : TextError

-- isBidiControl
unfoldable pub is_bidi_control : ℕ → Bool
is_bidi_control r =
    eqb r 0x061C
    || (leb 0x200E r && leb r 0x200F)
    || (leb 0x202A r && leb r 0x202E)
    || (leb 0x2066 r && leb r 0x2069)

-- unicode.IsControl
unfoldable pub is_control : ℕ → Bool
is_control r = ltb r 32 || leb 127 r && ltb r 160

-- The loop of SafeText, over the runes.
unfoldable pub check_runes : List ℕ → Option TextError
unfolding is_control is_bidi_control
check_runes [] = none
check_runes (r ∷ rs) =
    let rest = check_runes rs in
    if eqb r 0
    then some nul_byte
    else if is_control r && not (eqb r 9) && not (eqb r 10)
    then some control_character
    else if is_bidi_control r
    then some direction_override
    else rest

-- SafeText
unfoldable pub safe_text : Text → Option TextError
unfolding runes check_runes
safe_text s = elim (runes s) [ none ↦ some not_utf8 | some rs ↦ check_runes rs ]
