-- ===== src/Prelude/Counting.antt =====
-- How often an element stands in a list. Membership, distinctness and permutations are read off it:
-- `xs` holds `a` if `0 < count a xs`, and two lists are permutations if they count alike.
use datum.Prelude.Tests.{if◌then◌else◌, ltb}
use datum.Prelude.Lists.{length}
use datum.Prelude.Equality.{Eq, ◌==◌, ==_iff, ==_refl}
use Prim.Native.Nat.{ℕ, suc, ◌+◌, ◌-◌, ◌≤◌, ◌<◌}
use mathlib.Core.Path.{◌≡◌, refl}
use mathlib.Core.Bool.{Bool, false, ◌||◌}
use mathlib.Core.List.{List, [], ◌∷◌, ◌++◌}
use native.Mathlib.Omega.{arith}

module _ {ℓ} {A : Type ℓ} ⦃e : Eq A⦄ where
  unfoldable pub count : A → List A → ℕ
  count a [] = 0
  count a (x ∷ xs) = (if x == a then 1 else 0) + count a xs

  -- Go's `contains(values, want)`
  unfoldable pub contains : List A → A → Bool
  contains [] a = false
  contains (x ∷ xs) a = x == a || contains xs a

  -- The first occurrence taken out.
  unfoldable pub erase : A → List A → List A
  erase a [] = []
  erase a (x ∷ xs) = let rest = erase a xs in if x == a then xs else x ∷ rest

  -- No element stands there twice.
  abbrev pub IsDistinct : List A → Type ℓ
  IsDistinct xs = (a : A) → count a xs ≤ 1

  -- One list is a reordering of the other.
  abbrev pub SameCounts : List A → List A → Type ℓ
  SameCounts xs ys = (a : A) → count a xs ≡ count a ys

  pub contains-count : (xs : List A) (a : A) → contains xs a ≡ ltb 0 (count a xs)
  unfolding contains count
  contains-count [] a = ground arith
  contains-count (x ∷ xs) a = ground (arith, contains-count xs a)

  pub count-append : (a : A) (xs ys : List A) → count a (xs ++ ys) ≡ count a xs + count a ys
  unfolding count
  count-append a [] ys = omega arith
  count-append a (x ∷ xs) ys = omega (arith, count-append a xs ys)

  pub count-erase :
      (a b : A) (xs : List A) → count b (erase a xs) ≡ count b xs - (if a == b then 1 else 0)
  unfolding count erase
  count-erase a b [] = ground arith
  count-erase a b (x ∷ xs) = ground (arith, count-erase a b xs, ==_iff x a, ==_iff x b, ==_iff a b)

  pub length-erase : (a : A) (xs : List A) → 0 < count a xs → length (erase a xs) + 1 ≡ length xs
  unfolding count erase
  length-erase a [] h = absurd (omega arith)
  length-erase a (x ∷ xs) h = ground (arith, length-erase a xs)

  pub count-cons_self : (a : A) (xs : List A) → count a (a ∷ xs) ≡ suc (count a xs)
  unfolding count
  count-cons_self a xs = rw (==_refl a) (omega arith)

  -- A list whose counts stay below another's is no longer.
  pub length-le_of_counts :
      (xs ys : List A) → ((a : A) → count a xs ≤ count a ys) → length xs ≤ length ys
  length-le_of_counts [] ys h = omega arith
  length-le_of_counts (x ∷ xs) ys h =
      omega (arith, length-erase x ys present, length-le_of_counts xs (erase x ys) smaller)
    where
      present : 0 < count x ys
      present = omega (arith, h x, count-cons_self x xs)

      smaller : (a : A) → count a xs ≤ count a (erase x ys)
      smaller a = unfold count in ground (arith, h a, count-erase x a ys)

  -- If moreover the lengths agree, the lists are reorderings of one another.
  pub SameCounts-of_length :
      (xs ys : List A)
      → ((a : A) → count a xs ≤ count a ys)
      → length xs ≡ length ys
      → SameCounts xs ys
  unfolding count
  SameCounts-of_length [] [] h e a = refl
  SameCounts-of_length [] (y ∷ ys) h e a = absurd (omega arith)
  SameCounts-of_length (x ∷ xs) ys h e a =
      let rest =
        SameCounts-of_length xs (erase x ys) smaller (omega (arith, length-erase x ys present)) a in
      ground (arith, count-erase x a ys, rest, h a, ==_iff x a, present)
    where
      present : 0 < count x ys
      present = omega (arith, h x, count-cons_self x xs)

      smaller : (b : A) → count b xs ≤ count b (erase x ys)
      smaller b = unfold count in ground (arith, h b, count-erase x b ys)

  pub length_of_counts : (xs ys : List A) → SameCounts xs ys → length xs ≡ length ys
  length_of_counts xs ys h = omega (
    arith,
    length-le_of_counts xs ys (λ a. omega (arith, h a)),
    length-le_of_counts ys xs (λ a. omega (arith, h a)),
  )
