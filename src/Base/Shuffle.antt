-- ===== src/Base/Shuffle.antt =====
-- One list is another in a different order: what `range` over a Go map may do.
use golang_gin_rpc.Base.{
  suc, ◌≤◌, ◌≡◌, refl, ap, ◌∙◌, List, [], ◌∷◌, arith, Eq, ==_self, map, length, contains,
  IsDistinct, All,
}
use golang_gin_rpc.Base.Count.{count, contains-count, count-IsDistinct}

pub data Shuffle {ℓ} {A : Type ℓ} : List A → List A → Type ℓ where
  nil : Shuffle [] []
  keep : (x : A) {xs ys : List A} → Shuffle xs ys → Shuffle (x ∷ xs) (x ∷ ys)
  swap : (x y : A) (xs : List A) → Shuffle (x ∷ y ∷ xs) (y ∷ x ∷ xs)
  trans : {xs ys zs : List A} → Shuffle xs ys → Shuffle ys zs → Shuffle xs zs

pub Shuffle-refl {ℓ} : {A : Type ℓ} (xs : List A) → Shuffle xs xs
Shuffle-refl [] = nil
Shuffle-refl (x ∷ xs) = keep x (Shuffle-refl xs)

pub Shuffle-map {ℓ κ} :
    {A : Type ℓ} {B : Type κ} (f : A → B) {xs ys : List A}
    → Shuffle xs ys
    → Shuffle (map f xs) (map f ys)
Shuffle-map f nil = nil
Shuffle-map f (keep x s) = keep (f x) (Shuffle-map f s)
Shuffle-map f (swap x y xs) = swap (f x) (f y) (map f xs)
Shuffle-map f (trans s t) = trans (Shuffle-map f s) (Shuffle-map f t)

pub Shuffle-length {ℓ} : {A : Type ℓ} {xs ys : List A} → Shuffle xs ys → length ys ≡ length xs
Shuffle-length nil = refl
Shuffle-length (keep x s) = ap suc (Shuffle-length s)
Shuffle-length (swap x y xs) = refl
Shuffle-length (trans s t) = Shuffle-length t ∙ Shuffle-length s

pub Shuffle-count {ℓ} :
    {A : Type ℓ} ⦃e : Eq A⦄ (v : A) {xs ys : List A} → Shuffle xs ys → count v ys ≡ count v xs
Shuffle-count v nil = refl
Shuffle-count v (keep x s) = ground (arith, Shuffle-count v s)
Shuffle-count v (swap x y xs) = ground arith
Shuffle-count v (trans s t) = Shuffle-count v t ∙ Shuffle-count v s

pub Shuffle-All {ℓ κ} :
    {A : Type ℓ} (P : A → Type κ) {xs ys : List A} → Shuffle xs ys → All P xs → All P ys
Shuffle-All P nil a = a
Shuffle-All P (keep x s) a = (a.0, Shuffle-All P s a.1)
Shuffle-All P (swap x y xs) a = (a.1.0, (a.0, a.1.1))
Shuffle-All P (trans s t) a = Shuffle-All P t (Shuffle-All P s a)

pub Shuffle-sym {ℓ} : {A : Type ℓ} {xs ys : List A} → Shuffle xs ys → Shuffle ys xs
Shuffle-sym nil = nil
Shuffle-sym (keep x s) = keep x (Shuffle-sym s)
Shuffle-sym (swap x y xs) = swap y x xs
Shuffle-sym (trans s t) = trans (Shuffle-sym t) (Shuffle-sym s)

pub IsDistinct-count {ℓ} :
    {A : Type ℓ} ⦃e : Eq A⦄ (xs : List A) → ((v : A) → count v xs ≤ 1) → IsDistinct xs
IsDistinct-count [] h = tt
IsDistinct-count (x ∷ xs) h = (
  ground (arith, h x, contains-count x xs, ==_self x),
  IsDistinct-count xs (λ v. ground (arith, h v)),
)

pub Shuffle-IsDistinct {ℓ} :
    {A : Type ℓ} ⦃e : Eq A⦄ {xs ys : List A} → Shuffle xs ys → IsDistinct xs → IsDistinct ys
Shuffle-IsDistinct {xs} {ys} s d =
    IsDistinct-count ys (λ v. omega (arith, Shuffle-count v s, count-IsDistinct v xs d))

pub Shuffle-contains {ℓ} :
    {A : Type ℓ} ⦃e : Eq A⦄ (v : A) {xs ys : List A} → Shuffle xs ys → contains ys v ≡ contains xs v
Shuffle-contains v {xs} {ys} s =
    ground (arith, contains-count v xs, contains-count v ys, Shuffle-count v s)
