-- ===== src/Kernel/Sort.antt =====
-- pkg/kernel/loader.go, `sortSliceStable`: an insertion sort whose inner loop moves an entry to
-- the left past the entries that it is less than.
use golang_gin_rpc.Base.{◌+◌, ◌≡◌, refl, Bool, List, [], ◌∷◌, arith, Eq, reverse, if◌then◌else◌}
use golang_gin_rpc.Base.Count.{count, count-reverse}

module _ {ℓ} {A : Type ℓ} (less : A → A → Bool) where
  -- The sorted part is held from its right end: `x` stops at the first entry it is not less than.
  sift : A → List A → List A
  sift x [] = x ∷ []
  sift x (y ∷ ys) = if less x y then y ∷ sift x ys else x ∷ y ∷ ys

  sort_from : List A → List A → List A
  sort_from sorted [] = reverse sorted
  sort_from sorted (x ∷ xs) = sort_from (sift x sorted) xs

  unfoldable pub sort_slice_stable : List A → List A
  unfolding sort_from sift
  sort_slice_stable list = sort_from [] list

module _ {ℓ} {A : Type ℓ} ⦃e : Eq A⦄ (less : A → A → Bool) where
  count-sift : (v x : A) (ys : List A) → count v (sift less x ys) ≡ count v (x ∷ ys)
  unfolding sift
  count-sift v x [] = refl
  count-sift v x (y ∷ ys) = ground (arith, count-sift v x ys)

  count-sort_from :
      (v : A) (sorted xs : List A)
      → count v (sort_from less sorted xs) ≡ count v sorted + count v xs
  unfolding sort_from
  count-sort_from v sorted [] = omega (arith, count-reverse v sorted)
  count-sort_from v sorted (x ∷ xs) =
      ground (arith, count-sort_from v (sift less x sorted) xs, count-sift v x sorted)

  -- Sorting loses nothing and makes nothing up.
  pub count-sort : (v : A) (xs : List A) → count v (sort_slice_stable less xs) ≡ count v xs
  unfolding sort_slice_stable
  count-sort v xs = omega (arith, count-sort_from v [] xs)
