-- ===== src/Orm/Fill.antt =====
-- plugins/db/orm: what a database reads, a text with the arguments in place of its placeholders.
use golang_gin_rpc.Base.{
  ℕ, zero, suc, ◌+◌, ◌-◌, ◌≡◌, refl, sym, ◌∙◌, ap, ap₂, Option, none, some, List, [], ◌∷◌, ◌++◌,
  arith, length, get_elem?, if_elim, eqb,
}
use golang_gin_rpc.Orm.{
  Dialect, mysql, postgresql, sqlite, clickhouse, default_dialect, Piece, word, name, number, mark,
  numbered, Text, placeholder, join, count_marks, replace_first, replace_marks, shift_all,
  shift_placeholders_if_needed,
}
use golang_gin_rpc.Orm.Where.{numbered_conditions}
use golang_gin_rpc.Orm.Slots.{slots, expected}

-- A piece of a text, the value of an argument, or a placeholder that no argument is bound to.
pub data Said {ℓ} (A : Type ℓ) : Type ℓ where
  says : Piece → Said A
  holds : A → Said A
  missing : Said A

module _ {ℓ} {A : Type ℓ} where
  abbrev pub argument : Option A → Said A
  argument none = missing
  argument (some a) = holds a

  -- A database binds the n-th question mark to the n-th argument, and `$n` to argument n. `j` question
  -- marks came before.
  unfoldable pub bind : List A → ℕ → Text → List (Said A)
  bind args j [] = []
  bind args j (mark ∷ text) = argument (get_elem? args j) ∷ bind args (j + 1) text
  bind args j (numbered n ∷ text) = argument (get_elem? args (n - 1)) ∷ bind args j text
  bind args j (word w ∷ text) = says (word w) ∷ bind args j text
  bind args j (name n ∷ text) = says (name n) ∷ bind args j text
  bind args j (number n ∷ text) = says (number n) ∷ bind args j text

  -- A text whose placeholders, of whatever form, take its arguments one by one.
  unfoldable pub fill : Text → List A → List (Said A)
  fill [] args = []
  fill (mark ∷ text) [] = missing ∷ fill text []
  fill (mark ∷ text) (a ∷ args) = holds a ∷ fill text args
  fill (numbered n ∷ text) [] = missing ∷ fill text []
  fill (numbered n ∷ text) (a ∷ args) = holds a ∷ fill text args
  fill (word w ∷ text) args = says (word w) ∷ fill text args
  fill (name n ∷ text) args = says (name n) ∷ fill text args
  fill (number n ∷ text) args = says (number n) ∷ fill text args

  pub fill-append :
      (t u : Text) (args others : List A)
      → length (slots t) ≡ length args
      → fill (t ++ u) (args ++ others) ≡ fill t args ++ fill u others
  unfolding fill slots
  fill-append [] u [] others e = refl
  fill-append [] u (a ∷ args) others e = absurd (ground arith)
  fill-append (mark ∷ t) u [] others e = absurd (ground arith)
  fill-append (mark ∷ t) u (a ∷ args) others e =
      ap (λ l. holds a ∷ l) (fill-append t u args others (omega (arith, e)))
  fill-append (numbered n ∷ t) u [] others e = absurd (ground arith)
  fill-append (numbered n ∷ t) u (a ∷ args) others e =
      ap (λ l. holds a ∷ l) (fill-append t u args others (omega (arith, e)))
  fill-append (word w ∷ t) u args others e =
      ap (λ l. says (word w) ∷ l) (fill-append t u args others e)
  fill-append (name n ∷ t) u args others e =
      ap (λ l. says (name n) ∷ l) (fill-append t u args others e)
  fill-append (number n ∷ t) u args others e =
      ap (λ l. says (number n) ∷ l) (fill-append t u args others e)

-- How many question marks have been read, where the dialect counts them.
abbrev pub Counted : Dialect → ℕ → ℕ → Type 0
Counted postgresql j k = Unit
Counted mysql j k = j ≡ k
Counted sqlite j k = j ≡ k
Counted clickhouse j k = j ≡ k
Counted default_dialect j k = j ≡ k

pub Counted-self : (d : Dialect) (k : ℕ) → Counted d k k
Counted-self postgresql k = tt
Counted-self mysql k = refl
Counted-self sqlite k = refl
Counted-self clickhouse k = refl
Counted-self default_dialect k = refl

-- The text with a question mark for each placeholder.
unfoldable pub blank : Text → Text
blank [] = []
blank (mark ∷ text) = mark ∷ blank text
blank (numbered n ∷ text) = mark ∷ blank text
blank (word w ∷ text) = word w ∷ blank text
blank (name n ∷ text) = name n ∷ blank text
blank (number n ∷ text) = number n ∷ blank text

pub blank-append : (t u : Text) → blank (t ++ u) ≡ blank t ++ blank u
unfolding blank
blank-append [] u = refl
blank-append (mark ∷ t) u = ap (λ l. mark ∷ l) (blank-append t u)
blank-append (numbered n ∷ t) u = ap (λ l. mark ∷ l) (blank-append t u)
blank-append (word w ∷ t) u = ap (λ l. word w ∷ l) (blank-append t u)
blank-append (name n ∷ t) u = ap (λ l. name n ∷ l) (blank-append t u)
blank-append (number n ∷ t) u = ap (λ l. number n ∷ l) (blank-append t u)

blank-placeholder : (d : Dialect) (k : ℕ) (t : Text) → blank (placeholder d k ∷ t) ≡ mark ∷ blank t
unfolding blank placeholder
blank-placeholder mysql k t = refl
blank-placeholder postgresql k t = refl
blank-placeholder sqlite k t = refl
blank-placeholder clickhouse k t = refl
blank-placeholder default_dialect k t = refl

blank-replace_first :
    (d : Dialect) (k : ℕ) (t : Text) → blank (replace_first (placeholder d k) t) ≡ blank t
unfolding blank replace_first
blank-replace_first d k [] = refl
blank-replace_first d k (mark ∷ t) = blank-placeholder d k t
blank-replace_first d k (numbered n ∷ t) = ap (λ l. mark ∷ l) (blank-replace_first d k t)
blank-replace_first d k (word w ∷ t) = ap (λ l. word w ∷ l) (blank-replace_first d k t)
blank-replace_first d k (name n ∷ t) = ap (λ l. name n ∷ l) (blank-replace_first d k t)
blank-replace_first d k (number n ∷ t) = ap (λ l. number n ∷ l) (blank-replace_first d k t)

pub blank-replace :
    (n : ℕ) (d : Dialect) (k : ℕ) (t : Text) → blank (replace_marks n d k t) ≡ blank t
unfolding replace_marks
blank-replace zero d k t = refl
blank-replace (suc n) d k t =
    blank-replace n d (k + 1) (replace_first (placeholder d k) t) ∙ blank-replace_first d k t

blank-shift_all : (n : ℕ) (t : Text) → blank (shift_all n t) ≡ blank t
unfolding blank shift_all
blank-shift_all n [] = refl
blank-shift_all n (mark ∷ t) = ap (λ l. mark ∷ l) (blank-shift_all n t)
blank-shift_all n (numbered m ∷ t) = ap (λ l. mark ∷ l) (blank-shift_all n t)
blank-shift_all n (word w ∷ t) = ap (λ l. word w ∷ l) (blank-shift_all n t)
blank-shift_all n (name m ∷ t) = ap (λ l. name m ∷ l) (blank-shift_all n t)
blank-shift_all n (number m ∷ t) = ap (λ l. number m ∷ l) (blank-shift_all n t)

pub blank-shift :
    (d : Dialect) (k : ℕ) (t : Text) → blank (shift_placeholders_if_needed t d k) ≡ blank t
unfolding shift_placeholders_if_needed
blank-shift mysql k t = refl
blank-shift postgresql k t =
    if_elim (λ u. blank u ≡ blank t) (eqb k 0) (λ _. refl) (λ _. blank-shift_all k t)
blank-shift sqlite k t = refl
blank-shift clickhouse k t = refl
blank-shift default_dialect k t = refl

pub blank-conditions :
    (d : Dialect) (k : ℕ) (cs : List Text)
    → blank (join [] (numbered_conditions d k cs)) ≡ blank (join [] cs)
unfolding numbered_conditions join
blank-conditions d k [] = refl
blank-conditions d k (c ∷ []) = blank-replace (count_marks c) d k c
blank-conditions d k (c ∷ e ∷ cs) =
    blank-append (replace_marks (count_marks c) d k c)
      (join [] (numbered_conditions d (k + count_marks c) (e ∷ cs)))
    ∙ ap₂ (λ t u. t ++ u) (blank-replace (count_marks c) d k c)
        (blank-conditions d (k + count_marks c) (e ∷ cs))
    ∙ sym (blank-append c (join [] (e ∷ cs)))

abbrev head_of : Text → Piece
head_of [] = mark
head_of (p ∷ text) = p

abbrev tail_of : Text → Text
tail_of [] = []
tail_of (p ∷ text) = text

mark-Counted :
    (d : Dialect) (j k : ℕ)
    → mark ≡ placeholder d k
    → Counted d j k
    → (j ≡ k) × Counted d (j + 1) (k + 1)
unfolding placeholder
mark-Counted postgresql j k e c = absurd (ground arith)
mark-Counted mysql j k e c = (c, omega (arith, c))
mark-Counted sqlite j k e c = (c, omega (arith, c))
mark-Counted clickhouse j k e c = (c, omega (arith, c))
mark-Counted default_dialect j k e c = (c, omega (arith, c))

numbered-Counted :
    (d : Dialect) (n j k : ℕ) → numbered n ≡ placeholder d k → (n - 1 ≡ k) × Counted d j (k + 1)
unfolding placeholder
numbered-Counted postgresql n j k e = (ground arith, tt)
numbered-Counted mysql n j k e = absurd (ground arith)
numbered-Counted sqlite n j k e = absurd (ground arith)
numbered-Counted clickhouse n j k e = absurd (ground arith)
numbered-Counted default_dialect n j k e = absurd (ground arith)

module _ {ℓ} {A : Type ℓ} where
  fill-blank_self : (t : Text) (args : List A) → fill (blank t) args ≡ fill t args
  unfolding fill blank
  fill-blank_self [] args = refl
  fill-blank_self (mark ∷ t) [] = ap (λ l. missing ∷ l) (fill-blank_self t [])
  fill-blank_self (mark ∷ t) (a ∷ args) = ap (λ l. holds a ∷ l) (fill-blank_self t args)
  fill-blank_self (numbered n ∷ t) [] = ap (λ l. missing ∷ l) (fill-blank_self t [])
  fill-blank_self (numbered n ∷ t) (a ∷ args) = ap (λ l. holds a ∷ l) (fill-blank_self t args)
  fill-blank_self (word w ∷ t) args = ap (λ l. says (word w) ∷ l) (fill-blank_self t args)
  fill-blank_self (name n ∷ t) args = ap (λ l. says (name n) ∷ l) (fill-blank_self t args)
  fill-blank_self (number n ∷ t) args = ap (λ l. says (number n) ∷ l) (fill-blank_self t args)

  -- Only the places of the placeholders matter.
  pub fill-blank : (t u : Text) (args : List A) → blank t ≡ blank u → fill t args ≡ fill u args
  fill-blank t u args e =
      sym (fill-blank_self t args) ∙ ap (λ x. fill x args) e ∙ fill-blank_self u args

  next :
      (full : List A) (a : A) (args : List A) (k : ℕ)
      → ((i : ℕ) → get_elem? full (k + i) ≡ get_elem? (a ∷ args) i)
      → (i : ℕ) → get_elem? full (k + 1 + i) ≡ get_elem? args i
  next full a args k h i =
      let at : k + 1 + i ≡ k + suc i = omega arith in ap (get_elem? full) at ∙ h (suc i)

  -- Where the placeholders are those that the dialect gives the arguments, in order, the database reads
  -- what `fill` writes.
  pub bind-fill :
      (d : Dialect) (full args : List A) (j k : ℕ) (t : Text)
      → Counted d j k
      → ((i : ℕ) → get_elem? full (k + i) ≡ get_elem? args i)
      → slots t ≡ expected d k (length args)
      → bind full j t ≡ fill t args
  unfolding bind fill slots expected
  bind-fill d full args j k [] c h e = refl
  bind-fill d full args j k (word w ∷ t) c h e =
      ap (λ l. says (word w) ∷ l) (bind-fill d full args j k t c h e)
  bind-fill d full args j k (name n ∷ t) c h e =
      ap (λ l. says (name n) ∷ l) (bind-fill d full args j k t c h e)
  bind-fill d full args j k (number n ∷ t) c h e =
      ap (λ l. says (number n) ∷ l) (bind-fill d full args j k t c h e)
  bind-fill d full [] j k (mark ∷ t) c h e = absurd (ground arith)
  bind-fill d full [] j k (numbered n ∷ t) c h e = absurd (ground arith)
  bind-fill d full (a ∷ args) j k (mark ∷ t) c h e =
      let (at, c') = mark-Counted d j k (ap head_of e) c in
      ap₂ (λ x l. argument x ∷ l) (ap (get_elem? full) (at ∙ omega arith) ∙ h 0)
        (bind-fill d full args (j + 1) (k + 1) t c' (next full a args k h) (ap tail_of e))
  bind-fill d full (a ∷ args) j k (numbered n ∷ t) c h e =
      let (at, c') = numbered-Counted d n j k (ap head_of e) in
      ap₂ (λ x l. argument x ∷ l) (ap (get_elem? full) (at ∙ omega arith) ∙ h 0)
        (bind-fill d full args j (k + 1) t c' (next full a args k h) (ap tail_of e))
