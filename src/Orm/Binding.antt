-- ===== src/Orm/Binding.antt =====
-- plugins/db/orm/where_builder.go: which argument the database binds to which placeholder of a WHERE
-- clause.
use golang_gin_rpc.Base.{
  ℕ, ◌+◌, ◌≡◌, refl, sym, ◌∙◌, ap, ap₂, true, ◌&&◌, List, [], ◌∷◌, ◌++◌, arith, String, length,
  length-append, All, All-append,
}
use golang_gin_rpc.Orm.{
  Dialect, word, name, number, mark, numbered, Text, join, count_marks, replace_marks,
}
use golang_gin_rpc.Orm.Where.{
  WhereBuilder, led_by, enclosed, numbered_conditions, add_where, build_with_offset,
}
use golang_gin_rpc.Orm.Slots.{
  slots, expected, slots-append, expected-append, marks_only, slots-replace, count_marks-append,
}
use mathlib.Core.List.{append-nil}

-- The placeholders of the text are those of its arguments, the first of them at an index: each is
-- bound to the argument that was given at its place.
abbrev pub IsBound {ℓ} : {A : Type ℓ} → Dialect → ℕ → Text × List A → Type 0
IsBound d k (text, args) = slots text ≡ expected d k (length args)

unfoldable pub marks_of : List Text → ℕ
marks_of [] = 0
marks_of (c ∷ conditions) = count_marks c + marks_of conditions

pub marks_of-append : (cs ds : List Text) → marks_of (cs ++ ds) ≡ marks_of cs + marks_of ds
unfolding marks_of
marks_of-append [] ds = omega arith
marks_of-append (c ∷ cs) ds = omega (arith, marks_of-append cs ds)

pub marks_only-append : (t u : Text) → marks_only (t ++ u) ≡ (marks_only t && marks_only u)
unfolding marks_only
marks_only-append [] u = refl
marks_only-append (mark ∷ t) u = marks_only-append t u
marks_only-append (numbered n ∷ t) u = refl
marks_only-append (word w ∷ t) u = marks_only-append t u
marks_only-append (name n ∷ t) u = marks_only-append t u
marks_only-append (number n ∷ t) u = marks_only-append t u

-- As many marks as arguments, and no numbered placeholder.
abbrev pub IsEven {ℓ} : {A : Type ℓ} → Text → List A → Type 0
IsEven text args = (marks_only text ≡ true) × (count_marks text ≡ length args)

slots-join : (t : Text) (ts : List Text) → slots (join [] (t ∷ ts)) ≡ slots t ++ slots (join [] ts)
unfolding join slots
slots-join t [] = sym (append-nil (slots t))
slots-join t (u ∷ ts) = slots-append t (join [] (u ∷ ts))

slots-conditions :
    (d : Dialect) (k : ℕ) (cs : List Text)
    → All (λ c. marks_only c ≡ true) cs
    → slots (join [] (numbered_conditions d k cs)) ≡ expected d k (marks_of cs)
unfolding numbered_conditions marks_of join slots expected
slots-conditions d k [] h = refl
slots-conditions d k (c ∷ cs) h =
    slots-join (replace_marks (count_marks c) d k c) (numbered_conditions d (k + count_marks c) cs)
    ∙ ap₂ (λ l r. l ++ r) (slots-replace d k c h.0) (slots-conditions d (k + count_marks c) cs h.1)
    ∙ sym (expected-append d k (count_marks c) (marks_of cs))

pub marks_only-join :
    (cs : List Text) → All (λ c. marks_only c ≡ true) cs → marks_only (join [] cs) ≡ true
unfolding join marks_only
marks_only-join [] h = refl
marks_only-join (c ∷ []) h = h.0
marks_only-join (c ∷ d ∷ cs) h =
    ground (arith, marks_only-append c (join [] (d ∷ cs)), marks_only-join (d ∷ cs) h.1, h.0)

pub count_marks-join : (cs : List Text) → count_marks (join [] cs) ≡ marks_of cs
unfolding join marks_of count_marks
count_marks-join [] = refl
count_marks-join (c ∷ []) = omega arith
count_marks-join (c ∷ d ∷ cs) =
    omega (arith, count_marks-append c (join [] (d ∷ cs)), count_marks-join (d ∷ cs))

module _ {ℓ} {A : Type ℓ} where
  -- The marks of the conditions are those of the arguments.
  abbrev pub IsPlain : WhereBuilder A → Type 0
  IsPlain wb =
      All (λ c. marks_only c ≡ true) wb.conditions × (marks_of wb.conditions ≡ length wb.args)

  unfoldable pub built_from : ℕ → Dialect → List Text → List A → Text × List A
  built_from k d [] args = ([], [])
  built_from k d (c ∷ cs) args = (word "WHERE" ∷ join [] (numbered_conditions d k (c ∷ cs)), args)

  pub build-built_from :
      (k : ℕ) (wb : WhereBuilder A)
      → build_with_offset k wb ≡ built_from k wb.dialect wb.conditions wb.args
  unfolding build_with_offset built_from
  build-built_from k wb = of_conditions wb.conditions
    where
      of_conditions :
          (cs : List Text)
          → elim cs as (λ _. Text × List A) [
            | [] ↦ ([], [])
            | c ∷ conditions ↦ (
              word "WHERE" ∷ join [] (numbered_conditions wb.dialect k (c ∷ conditions)),
              wb.args,
            )
          ]
            ≡ built_from k wb.dialect cs wb.args
      of_conditions [] = refl
      of_conditions (c ∷ cs) = refl

  pub built_from-IsBound :
      (k : ℕ) (d : Dialect) (cs : List Text) (args : List A)
      → All (λ c. marks_only c ≡ true) cs
      → marks_of cs ≡ length args
      → IsBound d k (built_from k d cs args)
  unfolding built_from slots expected marks_of
  built_from-IsBound k d [] args h e = refl
  built_from-IsBound k d (c ∷ cs) args h e = slots-conditions d k (c ∷ cs) h ∙ ap (expected d k) e

  pub build-IsBound :
      (k : ℕ) (wb : WhereBuilder A) → IsPlain wb → IsBound wb.dialect k (build_with_offset k wb)
  build-IsBound k wb h =
      rw (build-built_from k wb) (built_from-IsBound k wb.dialect wb.conditions wb.args h.0 h.1)

  pub add_where-IsPlain :
      (c : Text) (args : List A) (wb : WhereBuilder A)
      → IsEven c args
      → IsPlain wb
      → IsPlain (add_where c args wb)
  unfolding add_where marks_of
  add_where-IsPlain c args wb e h = (
    All-append (λ c. marks_only c ≡ true) wb.conditions (c ∷ []) h.0 (e.0, tt),
    omega (arith, marks_of-append wb.conditions (c ∷ []), length-append {ℓ} wb.args args),
  )

  pub led_by-IsEven :
      (w : String) (c : Text) (cs : List Text) (args : List A)
      → IsEven c args
      → IsEven (led_by w c cs) args
  unfolding marks_only count_marks
  led_by-IsEven w c [] args e = e
  led_by-IsEven w c (d ∷ cs) args e = e

  pub enclosed-IsEven :
      (head query : Text) (args : List A)
      → IsEven {A = A} head []
      → IsEven query args
      → IsEven (enclosed head query) args
  unfolding marks_only count_marks
  enclosed-IsEven head query args e q = (
    ground (
      arith,
      marks_only-append head (word "(" ∷ (query ++ word ")" ∷ [])),
      marks_only-append query (word ")" ∷ []),
    ),
    omega (
      arith,
      count_marks-append head (word "(" ∷ (query ++ word ")" ∷ [])),
      count_marks-append query (word ")" ∷ []),
    ),
  )
