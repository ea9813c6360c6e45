-- ===== src/Prelude/Sorting.antt =====
-- Go's `sort.Slice` with a `less` function, as an insertion sort: equal elements keep their order.
use datum.Prelude.Tests.{if◌then◌else◌, Bool-cases}
use mathlib.Core.Logic.{inl, inr}
use datum.Prelude.Lists.{All, any, all, length}
use Prim.Native.Nat.{suc}
use datum.Prelude.Equality.{Eq}
use datum.Prelude.Counting.{count, SameCounts}
use mathlib.Core.Path.{◌≡◌, refl}
use mathlib.Core.Bool.{Bool, false}
use mathlib.Core.List.{List, [], ◌∷◌}
use native.Mathlib.Omega.{arith}

module _ {ℓ} {A : Type ℓ} (less : A → A → Bool) where
  unfoldable pub insert_by : A → List A → List A
  insert_by a [] = a ∷ []
  insert_by a (x ∷ xs) = let rest = insert_by a xs in if less x a then x ∷ rest else a ∷ x ∷ xs

  unfoldable pub sort_by : List A → List A
  unfolding insert_by
  sort_by [] = []
  sort_by (x ∷ xs) = insert_by x (sort_by xs)

  -- No element is less than one before it.
  abbrev pub IsSorted : List A → Type ℓ
  IsSorted [] = Unit
  IsSorted (x ∷ xs) = All (λ y. less y x ≡ false) xs × IsSorted xs

module _ {ℓ} {A : Type ℓ} ⦃e : Eq A⦄ (less : A → A → Bool) where
  pub count-insert_by : (a b : A) (xs : List A) → count b (insert_by less a xs) ≡ count b (a ∷ xs)
  unfolding insert_by count
  count-insert_by a b [] = refl
  count-insert_by a b (x ∷ xs) = ground (arith, count-insert_by a b xs)

  pub sort_by-counts : (xs : List A) → SameCounts (sort_by less xs) xs
  unfolding sort_by count
  sort_by-counts [] b = refl
  sort_by-counts (x ∷ xs) b =
      omega (arith, count-insert_by x b (sort_by less xs), sort_by-counts xs b)

module _ {ℓ} {A : Type ℓ} (less : A → A → Bool) where
  All-insert_by {κ} :
      (P : A → Type κ) (a : A) (xs : List A) → P a → All P xs → All P (insert_by less a xs)
  unfolding insert_by
  All-insert_by P a [] h hs = (h, tt)
  All-insert_by P a (x ∷ xs) h hs = elim (Bool-cases (less x a)) [
    | inl e ↦ rw e (hs.0, All-insert_by P a xs h hs.1)
    | inr e ↦ rw e (h, hs)
  ]

  -- Sorting keeps what holds of every element.
  pub All-sort_by {κ} : (P : A → Type κ) (xs : List A) → All P xs → All P (sort_by less xs)
  unfolding sort_by
  All-sort_by P [] hs = tt
  All-sort_by P (x ∷ xs) hs = All-insert_by P x (sort_by less xs) hs.0 (All-sort_by P xs hs.1)

  any-insert_by :
      (p : A → Bool) (a : A) (xs : List A) → any p (insert_by less a xs) ≡ any p (a ∷ xs)
  unfolding insert_by
  any-insert_by p a [] = refl
  any-insert_by p a (x ∷ xs) = ground (arith, any-insert_by p a xs)

  -- Sorting keeps whether some element passes a test.
  pub any-sort_by : (p : A → Bool) (xs : List A) → any p (sort_by less xs) ≡ any p xs
  unfolding sort_by
  any-sort_by p [] = refl
  any-sort_by p (x ∷ xs) = ground (arith, any-insert_by p x (sort_by less xs), any-sort_by p xs)

  length-insert_by : (a : A) (xs : List A) → length (insert_by less a xs) ≡ suc (length xs)
  unfolding insert_by
  length-insert_by a [] = refl
  length-insert_by a (x ∷ xs) = ground (arith, length-insert_by a xs)

  pub length-sort_by : (xs : List A) → length (sort_by less xs) ≡ length xs
  unfolding sort_by
  length-sort_by [] = refl
  length-sort_by (x ∷ xs) = ground (arith, length-insert_by x (sort_by less xs), length-sort_by xs)

  all-insert_by :
      (p : A → Bool) (a : A) (xs : List A) → all p (insert_by less a xs) ≡ all p (a ∷ xs)
  unfolding insert_by
  all-insert_by p a [] = refl
  all-insert_by p a (x ∷ xs) = ground (arith, all-insert_by p a xs)

  pub all-sort_by : (p : A → Bool) (xs : List A) → all p (sort_by less xs) ≡ all p xs
  unfolding sort_by
  all-sort_by p [] = refl
  all-sort_by p (x ∷ xs) = ground (arith, all-insert_by p x (sort_by less xs), all-sort_by p xs)
