-- ===== src/Base/Count.antt =====
-- How often a value stands in a list: the view of a list that forgets its order.
use golang_gin_rpc.Base.{
  ℕ, suc, ◌+◌, ◌-◌, ◌≤◌, ◌<◌, ◌≡◌, refl, List, [], ◌∷◌, ◌++◌, arith, Eq, ◌==◌, ==_iff, ==_self,
  length, contains, IsDistinct, if◌then◌else◌, ltb, reverse,
}
use mathlib.Core.List.{reverse-cons}

module _ {ℓ} {A : Type ℓ} ⦃e : Eq A⦄ where
  abbrev pub count : A → List A → ℕ
  count v [] = 0
  count v (x ∷ xs) = if x == v then suc (count v xs) else count v xs

  pub count-append : (v : A) (xs ys : List A) → count v (xs ++ ys) ≡ count v xs + count v ys
  count-append v [] ys = omega arith
  count-append v (x ∷ xs) ys = ground (arith, count-append v xs ys)

  pub count-reverse : (v : A) (xs : List A) → count v (reverse xs) ≡ count v xs
  count-reverse v [] = refl
  count-reverse v (x ∷ xs) =
      rw (reverse-cons x xs)
        (ground (arith, count-append v (reverse xs) (x ∷ []), count-reverse v xs))

  pub contains-count : (v : A) (xs : List A) → contains xs v ≡ ltb 0 (count v xs)
  contains-count v [] = refl
  contains-count v (x ∷ xs) = ground (arith, contains-count v xs)

  -- The list without its first occurrence of a value.
  abbrev pub drop_one : A → List A → List A
  drop_one v [] = []
  drop_one v (x ∷ xs) = if x == v then xs else x ∷ drop_one v xs

  pub count-drop_one :
      (v j : A) (xs : List A)
      → count j (drop_one v xs) ≡ (if v == j then count j xs - 1 else count j xs)
  count-drop_one v j [] = ground arith
  count-drop_one v j (x ∷ xs) =
      ground (arith, ==_iff x v, ==_iff v j, ==_iff x j, count-drop_one v j xs)

  pub length-drop_one :
      (v : A) (xs : List A) → 0 < count v xs → length xs ≡ suc (length (drop_one v xs))
  length-drop_one v [] h = absurd (omega arith)
  length-drop_one v (x ∷ xs) h = ground (arith, length-drop_one v xs)

  -- A list whose values stand in another as often is not longer.
  pub length-le : (xs ys : List A) → ((v : A) → count v xs ≤ count v ys) → length xs ≤ length ys
  length-le [] ys h = omega arith
  length-le (x ∷ xs) ys h = omega (
    arith,
    length-drop_one x ys (ground (arith, h x, ==_self x)),
    length-le xs (drop_one x ys) (λ v. ground (arith, h v, count-drop_one x v ys)),
  )

  pub count-IsDistinct : (v : A) (xs : List A) → IsDistinct xs → count v xs ≤ 1
  count-IsDistinct v [] d = omega arith
  count-IsDistinct v (x ∷ xs) d =
      ground
        (arith, count-IsDistinct v xs d.1, contains-count v xs, contains-count x xs, ==_iff x v)

  pub count-le-length : (v : A) (xs : List A) → count v xs ≤ length xs
  count-le-length v [] = omega arith
  count-le-length v (x ∷ xs) = ground (arith, count-le-length v xs)
