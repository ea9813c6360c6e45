-- ===== src/Map.antt =====
-- Go's `map`: an association list in which a key stands once. A write to a key that is there
-- replaces its value in place, so the list of keys grows at its end only.
use datum.Prelude.{
  is_some, Eq, ◌==◌, ==_iff, ◌≡◌, refl, Bool, true, false, Option, none, some, List, [], ◌∷◌, arith,
  if◌then◌else◌, count, IsDistinct, ltb, ◌+◌,
}

abbrev pub Map {ℓ κ} : Type ℓ → Type κ → Type (ℓ ⊔ κ)
Map K V = List (K × V)

module _ {ℓ κ} {K : Type ℓ} {V : Type κ} ⦃e : Eq K⦄ where
  -- v, ok := m[k]
  unfoldable pub lookup : K → Map K V → Option V
  lookup k [] = none
  lookup k ((j, v) ∷ m) = if j == k then some v else lookup k m

  -- m[k], which is the zero value where the key is absent
  unfoldable pub get_or : Map K V → K → V → V
  get_or [] k zero_value = zero_value
  get_or ((j, v) ∷ m) k zero_value = if j == k then v else get_or m k zero_value

  -- _, ok := m[k]
  unfoldable pub has : K → Map K V → Bool
  has k [] = false
  has k ((j, v) ∷ m) = if j == k then true else has k m

  -- m[k] = v
  unfoldable pub put : K → V → Map K V → Map K V
  put k v [] = (k, v) ∷ []
  put k v ((j, w) ∷ m) = let rest = put k v m in if j == k then (j, v) ∷ m else (j, w) ∷ rest

module _ {ℓ κ} {K : Type ℓ} {V : Type κ} where
  -- The keys, in some order.
  unfoldable pub keys : Map K V → List K
  keys [] = []
  keys ((j, v) ∷ m) = j ∷ keys m

module _ {ℓ κ} {K : Type ℓ} {V : Type κ} ⦃e : Eq K⦄ where
  pub lookup-put :
      (k j : K) (v : V) (m : Map K V)
      → lookup j (put k v m) ≡ (if k == j then some v else lookup j m)
  unfolding lookup put
  lookup-put k j v [] = refl
  lookup-put k j v ((i, w) ∷ m) =
      ground (arith, lookup-put k j v m, ==_iff i k, ==_iff i j, ==_iff k j)

  pub get_or-put :
      (k j : K) (v d : V) (m : Map K V)
      → get_or (put k v m) j d ≡ (if k == j then v else get_or m j d)
  unfolding get_or put
  get_or-put k j v d [] = refl
  get_or-put k j v d ((i, w) ∷ m) =
      ground (arith, get_or-put k j v d m, ==_iff i k, ==_iff i j, ==_iff k j)

  pub has-put :
      (k j : K) (v : V) (m : Map K V) → has j (put k v m) ≡ (if k == j then true else has j m)
  unfolding has put
  has-put k j v [] = refl
  has-put k j v ((i, w) ∷ m) = ground (arith, has-put k j v m, ==_iff i k, ==_iff i j, ==_iff k j)

  pub has-lookup_none : (k : K) (m : Map K V) → has k m ≡ false → lookup k m ≡ none
  unfolding has lookup
  has-lookup_none k [] h = refl
  has-lookup_none k ((i, w) ∷ m) h = ground (arith, has-lookup_none k m)

  pub has-lookup : (k : K) (m : Map K V) → has k m ≡ is_some (lookup k m)
  unfolding has lookup
  has-lookup k [] = refl
  has-lookup k ((i, w) ∷ m) = ground (arith, has-lookup k m)

  pub has-count : (k : K) (m : Map K V) → has k m ≡ ltb 0 (count k (keys m))
  unfolding has keys count
  has-count k [] = ground arith
  has-count k ((i, w) ∷ m) = ground (arith, has-count k m)

  -- A write to a key that is there keeps the list of keys.
  pub keys-put_self : (k : K) (v : V) (m : Map K V) → has k m ≡ true → keys (put k v m) ≡ keys m
  unfolding has keys put
  keys-put_self k v [] h = cc
  keys-put_self k v ((i, w) ∷ m) h = ground (arith, keys-put_self k v m)

  -- A write adds its key if it was not there, and no key twice.
  pub count-keys-put :
      (k j : K) (v : V) (m : Map K V)
      → count j (keys (put k v m))
        ≡ count j (keys m) + (if has k m then 0 else if k == j then 1 else 0)
  unfolding has keys put count
  count-keys-put k j v [] = ground arith
  count-keys-put k j v ((i, w) ∷ m) =
      ground (arith, count-keys-put k j v m, ==_iff i k, ==_iff i j, ==_iff k j)

  pub keys-put-IsDistinct :
      (k : K) (v : V) (m : Map K V) → IsDistinct (keys m) → IsDistinct (keys (put k v m))
  keys-put-IsDistinct k v m h j =
      ground (arith, count-keys-put k j v m, h j, has-count k m, ==_iff k j)
