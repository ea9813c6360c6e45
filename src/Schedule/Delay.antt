-- ===== src/Schedule/Delay.antt =====
-- internal/schedule/schedule.go: the arithmetic of the delay that Next adds.
use native.Mathlib.Nat.{mod-lt, div-add-mod, mul-add-mod_self_left, mod-eq_of_lt, suc-mod, mod_self}
use native.Mathlib.Decide.{dec_lt}
use datum.Prelude.{
  ℕ, zero, suc, ◌+◌, ◌-◌, ◌*◌, ◌/◌, ◌%◌, ◌≤◌, ◌<◌, ◌≡◌, refl, sym, ◌∙◌, ap, ◌⊎◌, inl, inr, leb,
  arith, if◌then◌else◌,
}
use datum.Prelude.Int.{ℤ, pos, negsuc, ◌+ℤ◌, rem, floor_mod}
use datum.Schedule.{phase, delay}

suc_mod-cases :
    (n i : ℕ)
    → 0 < i
    → (suc n % i ≡ suc (n % i)) × (suc (n % i) < i) ⊎ (suc n % i ≡ 0) × (suc (n % i) ≡ i)
suc_mod-cases n i h = elim (dec_lt (suc (n % i)) i) [
  | yes below ↦ inl (suc-mod n i ∙ mod-eq_of_lt below, below)
  | no above ↦
      let whole : suc (n % i) ≡ i = omega (arith, mod-lt n h, above) in
      inr (suc-mod n i ∙ ap (λ k. k % i) whole ∙ mod_self i, whole)
]

-- Go's remainder, corrected for its sign, is the mathematical one.
phase_lem : (t : ℤ) (i : ℕ) → 0 < i → phase t i ≡ pos (floor_mod t i)
unfolding phase floor_mod rem ◌+ℤ◌
phase_lem (pos n) i h = ground arith
phase_lem (negsuc n) i h = ground (arith, suc_mod-cases n i h)

pub floor_mod-lt : (t : ℤ) (i : ℕ) → 0 < i → floor_mod t i < i
unfolding floor_mod
floor_mod-lt (pos n) i h = mod-lt n h
floor_mod-lt (negsuc n) i h = ground arith

-- How far it is from the place `f` within an interval of length `i` forward to the place `g`.
pub gap : ℕ → ℕ → ℕ → ℕ
gap f g i = if leb g f then g + i - f else g - f

pub gap_lem :
    (f g i : ℕ)
    → f < i
    → g < i
    → (0 < gap f g i) × (gap f g i ≤ i) × ((gap f g i + f ≡ g + i) ⊎ (gap f g i + f ≡ g))
unfolding gap
gap_lem f g i hf hg = ground arith

pub delay_lem : (o i : ℕ) (t : ℤ) → 0 < i → delay o i t ≡ pos (gap (floor_mod t i) (o % i) i)
unfolding delay gap
delay_lem o i t h = rw (phase_lem t i h) (ground (arith, floor_mod-lt t i h, mod-lt o h))

-- A remainder is found by writing the number as whole intervals and a rest.
mod_whole : (k q r i : ℕ) → r < i → k ≡ i * q + r → k % i ≡ r
mod_whole k q r i h e = ap (λ n. n % i) e ∙ mul-add-mod_self_left i q r ∙ mod-eq_of_lt h

floor_mod_whole : (q r i : ℕ) → r < i → floor_mod (negsuc (i * q + (i - 1 - r))) i ≡ r
unfolding floor_mod
floor_mod_whole q r i h =
    omega (arith, mod_whole (i * q + (i - 1 - r)) q (i - 1 - r) i (omega arith) refl)

pos_add : (n m : ℕ) → pos n +ℤ pos m ≡ pos (n + m)
unfolding ◌+ℤ◌
pos_add n m = ground arith

negsuc_add : (n m : ℕ) → suc n ≤ m → negsuc n +ℤ pos m ≡ pos (m - suc n)
unfolding ◌+ℤ◌
negsuc_add n m h = ground arith

negsuc_add_lt : (n m : ℕ) → m < suc n → negsuc n +ℤ pos m ≡ negsuc (n - m)
unfolding ◌+ℤ◌
negsuc_add_lt n m h = ground arith

whole-le : (i q : ℕ) → 0 < q → i ≤ i * q
whole-le i q h = grind arith

-- A time before the epoch, and what is added to it in the two cases.
floor_mod-add_neg :
    (n m q r f i : ℕ)
    → f < i
    → r < i
    → n ≡ i * q + r
    → (m ≡ f + 1 + r) ⊎ (m + i ≡ f + 1 + r)
    → floor_mod (negsuc n +ℤ pos m) i ≡ f
floor_mod-add_neg n m q r f i hf hr e (inr below) =
    rw (negsuc_add_lt n m (omega arith))
      (ap (λ k. floor_mod (negsuc k) i) (omega arith) ∙ floor_mod_whole q f i hf)
floor_mod-add_neg n m zero r f i hf hr e (inl above) =
    rw (negsuc_add n m (omega arith))
      (unfold floor_mod in mod_whole (m - suc n) 0 f i hf (omega arith))
floor_mod-add_neg n m (suc q) r f i hf hr e (inl above) =
    rw (negsuc_add_lt n m (omega (arith, whole-le i (suc q))))
      (ap (λ k. floor_mod (negsuc k) i) (omega arith) ∙ floor_mod_whole q f i hf)

-- Every time that Next returns lies at the offset from a whole number of intervals.
pub floor_mod-delay : (o i : ℕ) (t : ℤ) → 0 < i → floor_mod (t +ℤ delay o i t) i ≡ o % i
unfolding floor_mod
floor_mod-delay o i (pos n) h =
    let g = gap (n % i) (o % i) i in
    let (early, late, place) = gap_lem (n % i) (o % i) i (mod-lt n h) (mod-lt o h) in
    rw (delay_lem o i (pos n) h, pos_add n g)
      (elim place [
        | inl e ↦
            mod_whole (n + g) (suc (n / i)) (o % i) i (mod-lt o h) (omega (arith, div-add-mod n i))
        | inr e ↦ mod_whole (n + g) (n / i) (o % i) i (mod-lt o h) (omega (arith, div-add-mod n i))
      ])
floor_mod-delay o i (negsuc n) h =
    let f = floor_mod (negsuc n) i in
    let g = gap f (o % i) i in
    let (early, late, place) = gap_lem f (o % i) i (floor_mod-lt (negsuc n) i h) (mod-lt o h) in
    let r_lt = mod-lt n h in
    rw (delay_lem o i (negsuc n) h) (
      floor_mod-add_neg n g (n / i) (n % i) (o % i) i (mod-lt o h) r_lt (sym (div-add-mod n i))
        (elim place [ inl e ↦ inl (omega arith) | inr e ↦ inr (omega arith) ]))
