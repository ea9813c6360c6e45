-- ===== src/Text/Bytes.antt =====
-- IndexByte and HasSuffix around the byte that they look for.
use datum.Prelude.{
  ℕ, zero, suc, ◌+◌, ◌-◌, ◌≡◌, refl, sym, ap, ◌∙◌, inl, inr, Bool, true, false, not, Option-cases,
  some, [], ◌∷◌, ◌++◌, all, length, take, drop, eqb, eqb_iff, arith,
}
use datum.Text.{Text, index_byte, ends_with}

-- The byte is not in the text.
abbrev pub lacks : ℕ → Text → Bool
lacks b t = all (λ c. not (eqb c b)) t

pub index_byte-lacks :
    (t rest : Text) (b : ℕ) → lacks b t ≡ true → index_byte (t ++ b ∷ rest) b ≡ some (length t)
unfolding index_byte
index_byte-lacks [] rest b h = ground (arith, (eqb_iff b b).1 refl)
index_byte-lacks (c ∷ t) rest b h = ground (arith, index_byte-lacks t rest b)

-- A text around the byte that IndexByte finds.
pub index_byte_parts :
    (s : Text) (b i : ℕ) → index_byte s b ≡ some i → take i s ++ b ∷ drop (i + 1) s ≡ s
unfolding index_byte
index_byte_parts [] b i h = absurd (ground (arith, h))
index_byte_parts (c ∷ s) b zero h = elim (Option-cases (index_byte s b)) [
  | inl none_left ↦ ap (λ (x : ℕ). x ∷ s) (ground (arith, h, none_left))
  | inr (k, e) ↦ ap (λ (x : ℕ). x ∷ s) (ground (arith, h, e))
]
index_byte_parts (c ∷ s) b (suc i) h =
    let next : suc i + 1 ≡ suc (i + 1) = omega arith in
    let found : index_byte s b ≡ some i = elim (Option-cases (index_byte s b)) [
      | inl none_left ↦ absurd (ground (arith, h, none_left))
      | inr (k, e) ↦ ground (arith, h, e)
    ] in
    rw next (ap (λ (t : Text). c ∷ t) (index_byte_parts s b i found))

pub ends_with_last : (s : Text) (b : ℕ) → ends_with (s ++ b ∷ []) b ≡ true
unfolding ends_with
ends_with_last [] b = (eqb_iff b b).1 refl
ends_with_last (c ∷ []) b = (eqb_iff b b).1 refl
ends_with_last (c ∷ d ∷ s) b = ends_with_last (d ∷ s) b

-- A text that ends with a byte is what is before it, and the byte.
pub ends_with_parts :
    (s : Text) (b : ℕ) → ends_with s b ≡ true → take (length s - 1) s ++ b ∷ [] ≡ s
unfolding ends_with
ends_with_parts [] b h = absurd (ground (arith, h))
ends_with_parts (c ∷ []) b h = ap (λ (x : ℕ). x ∷ []) (sym ((eqb_iff c b).0 h))
ends_with_parts (c ∷ d ∷ s) b h =
    let shorter : suc (suc (length s)) - 1 ≡ suc (length s) = omega arith in
    let one_less : suc (length s) - 1 ≡ length s = omega arith in
    let ih : take (length s) (d ∷ s) ++ b ∷ [] ≡ d ∷ s =
      ap (λ (n : ℕ). take n (d ∷ s) ++ b ∷ []) (sym one_less) ∙ ends_with_parts (d ∷ s) b h in
    rw shorter (ap (λ (t : Text). c ∷ t) ih)

pub ends_with-append : (s t : Text) (c b : ℕ) → ends_with (s ++ c ∷ t) b ≡ ends_with (c ∷ t) b
unfolding ends_with
ends_with-append [] t c b = refl
ends_with-append (d ∷ []) t c b = refl
ends_with-append (d ∷ e ∷ s) t c b = ends_with-append (e ∷ s) t c b

pub after_byte :
    (c : ℕ) (t : Text) (b : ℕ) → eqb c b ≡ false → ends_with (c ∷ t) b ≡ true → ends_with t b ≡ true
unfolding ends_with
after_byte c [] b h k = absurd (ground (arith, h, k))
after_byte c (d ∷ t) b h k = k
