-- ===== src/Orm/Slots.antt =====
-- plugins/db/orm: the placeholders of a text in the order in which they stand, and those that a
-- database expects for a number of arguments.
use golang_gin_rpc.Base.{
  ℕ, zero, suc, ◌+◌, ◌≡◌, refl, sym, ◌∙◌, ap, ap₂, Bool, true, false, [], ◌∷◌, ◌++◌, arith, eqb,
  Bool-cases, inl, inr,
}
use golang_gin_rpc.Orm.{
  Dialect, mysql, postgresql, sqlite, clickhouse, default_dialect, Piece, word, name, number, mark,
  numbered, Text, placeholder, count_marks, replace_first, replace_marks, shift_all,
  shift_placeholders_if_needed,
}
use mathlib.Core.List.{append_assoc, append-nil}
use mathlib.Core.Bool.{false≢true}

unfoldable pub slots : Text → Text
slots [] = []
slots (mark ∷ text) = mark ∷ slots text
slots (numbered n ∷ text) = numbered n ∷ slots text
slots (word w ∷ text) = slots text
slots (name n ∷ text) = slots text
slots (number n ∷ text) = slots text

-- The placeholders of `n` arguments, after `k` others.
unfoldable pub expected : Dialect → ℕ → ℕ → Text
expected dialect k zero = []
expected dialect k (suc n) = placeholder dialect k ∷ expected dialect (k + 1) n

pub slots-append : (t u : Text) → slots (t ++ u) ≡ slots t ++ slots u
unfolding slots
slots-append [] u = refl
slots-append (mark ∷ t) u = ap (λ l. mark ∷ l) (slots-append t u)
slots-append (numbered n ∷ t) u = ap (λ l. numbered n ∷ l) (slots-append t u)
slots-append (word w ∷ t) u = slots-append t u
slots-append (name n ∷ t) u = slots-append t u
slots-append (number n ∷ t) u = slots-append t u

pub expected-append :
    (d : Dialect) (k n m : ℕ) → expected d k (n + m) ≡ expected d k n ++ expected d (k + n) m
unfolding expected
expected-append d k zero m = ap₂ (expected d) (omega arith) (omega arith)
expected-append d k (suc n) m =
    let e : suc n + m ≡ suc (n + m) = omega arith in
    let f : k + 1 + n ≡ k + suc n = omega arith in
    rw e (
      ap (λ l. placeholder d k ∷ l)
        (expected-append d (k + 1) n m ∙ ap (λ (i : ℕ). expected d (k + 1) n ++ expected d i m) f))

-- No numbered placeholder.
unfoldable pub marks_only : Text → Bool
marks_only [] = true
marks_only (mark ∷ text) = marks_only text
marks_only (numbered n ∷ text) = false
marks_only (word w ∷ text) = marks_only text
marks_only (name n ∷ text) = marks_only text
marks_only (number n ∷ text) = marks_only text

pub placeholder-slot :
    (d : Dialect) (k : ℕ) (text : Text)
    → slots (placeholder d k ∷ text) ≡ placeholder d k ∷ slots text
unfolding slots placeholder
placeholder-slot mysql k text = refl
placeholder-slot postgresql k text = refl
placeholder-slot sqlite k text = refl
placeholder-slot clickhouse k text = refl
placeholder-slot default_dialect k text = refl

-- A dialect whose placeholder is the mark.
abbrev pub IsPositional : Dialect → Type 0
IsPositional d = (k : ℕ) → placeholder d k ≡ mark

replace_first-mark : (text : Text) → replace_first mark text ≡ text
unfolding replace_first
replace_first-mark [] = refl
replace_first-mark (mark ∷ t) = refl
replace_first-mark (numbered n ∷ t) = ap (λ l. numbered n ∷ l) (replace_first-mark t)
replace_first-mark (word w ∷ t) = ap (λ l. word w ∷ l) (replace_first-mark t)
replace_first-mark (name n ∷ t) = ap (λ l. name n ∷ l) (replace_first-mark t)
replace_first-mark (number n ∷ t) = ap (λ l. number n ∷ l) (replace_first-mark t)

replace_marks-positional :
    (n : ℕ) (d : Dialect) (k : ℕ) (text : Text) → IsPositional d → replace_marks n d k text ≡ text
unfolding replace_marks
replace_marks-positional zero d k text h = refl
replace_marks-positional (suc n) d k text h =
    rw (h k, replace_first-mark text) (replace_marks-positional n d (k + 1) text h)

slots-positional :
    (d : Dialect) (k : ℕ) (text : Text)
    → IsPositional d
    → marks_only text ≡ true
    → slots text ≡ expected d k (count_marks text)
unfolding slots expected count_marks marks_only
slots-positional d k [] h m = refl
slots-positional d k (mark ∷ t) h m =
    rw (h k) (ap (λ l. mark ∷ l) (slots-positional d (k + 1) t h m))
slots-positional d k (numbered n ∷ t) h m = absurd (false≢true m)
slots-positional d k (word w ∷ t) h m = slots-positional d k t h m
slots-positional d k (name n ∷ t) h m = slots-positional d k t h m
slots-positional d k (number n ∷ t) h m = slots-positional d k t h m

-- The first mark after a text without marks.
replace_first-append :
    (p : Piece) (before t : Text)
    → count_marks before ≡ 0
    → replace_first p (before ++ t) ≡ before ++ replace_first p t
unfolding replace_first count_marks
replace_first-append p [] t h = refl
replace_first-append p (mark ∷ b) t h = absurd (omega arith)
replace_first-append p (numbered n ∷ b) t h =
    ap (λ l. numbered n ∷ l) (replace_first-append p b t h)
replace_first-append p (word w ∷ b) t h = ap (λ l. word w ∷ l) (replace_first-append p b t h)
replace_first-append p (name n ∷ b) t h = ap (λ l. name n ∷ l) (replace_first-append p b t h)
replace_first-append p (number n ∷ b) t h = ap (λ l. number n ∷ l) (replace_first-append p b t h)

pub count_marks-append : (t u : Text) → count_marks (t ++ u) ≡ count_marks t + count_marks u
unfolding count_marks
count_marks-append [] u = omega arith
count_marks-append (mark ∷ t) u = omega (arith, count_marks-append t u)
count_marks-append (numbered n ∷ t) u = count_marks-append t u
count_marks-append (word w ∷ t) u = count_marks-append t u
count_marks-append (name n ∷ t) u = count_marks-append t u
count_marks-append (number n ∷ t) u = count_marks-append t u

-- The result of replacing in a text whose first part is done.
abbrev Numbers : ℕ → Text → Text → Type 0
Numbers k before t =
    slots (replace_marks (count_marks t) postgresql k (before ++ t))
    ≡ slots before ++ expected postgresql k (count_marks t)

-- The loop goes on behind a piece that it leaves as it is.
Numbers-past :
    (k : ℕ) (before : Text) (p : Piece) (t : Text)
    → Numbers k (before ++ p ∷ []) t
    → slots (p ∷ []) ≡ []
    → slots (replace_marks (count_marks t) postgresql k (before ++ p ∷ t))
      ≡ slots before ++ expected postgresql k (count_marks t)
Numbers-past k before p t h e =
    ap (λ (l : Text). slots (replace_marks (count_marks t) postgresql k l))
      (sym (append_assoc before (p ∷ []) t))
    ∙ h
    ∙ ap (λ l. l ++ expected postgresql k (count_marks t))
        (slots-append before (p ∷ []) ∙ ap (λ l. slots before ++ l) e ∙ append-nil (slots before))

quiet :
    (before : Text) (p : Piece)
    → count_marks before ≡ 0
    → count_marks (p ∷ []) ≡ 0
    → count_marks (before ++ p ∷ []) ≡ 0
quiet before p h e = omega (arith, count_marks-append before (p ∷ []))

slots-Numbers :
    (k : ℕ) (before t : Text) → count_marks before ≡ 0 → marks_only t ≡ true → Numbers k before t
unfolding slots expected count_marks marks_only replace_marks placeholder replace_first
slots-Numbers k before [] h m = ap slots (append-nil before) ∙ sym (append-nil (slots before))
slots-Numbers k before (mark ∷ t) h m =
    (ap (λ (l : Text). slots (replace_marks (count_marks t) postgresql (k + 1) l))
        (replace_first-append (numbered (k + 1)) before (mark ∷ t) h
          ∙ sym (append_assoc before (numbered (k + 1) ∷ []) t))
      ∙ slots-Numbers (k + 1) (before ++ numbered (k + 1) ∷ []) t
          (quiet before (numbered (k + 1)) h refl) m
      ∙ ap (λ l. l ++ expected postgresql (k + 1) (count_marks t))
          (slots-append before (numbered (k + 1) ∷ []))
      ∙ append_assoc (slots before) (numbered (k + 1) ∷ [])
          (expected postgresql (k + 1) (count_marks t)))
slots-Numbers k before (numbered n ∷ t) h m = absurd (false≢true m)
slots-Numbers k before (word w ∷ t) h m =
    Numbers-past k before (word w) t
      (slots-Numbers k (before ++ word w ∷ []) t (quiet before (word w) h refl) m) refl
slots-Numbers k before (name n ∷ t) h m =
    Numbers-past k before (name n) t
      (slots-Numbers k (before ++ name n ∷ []) t (quiet before (name n) h refl) m) refl
slots-Numbers k before (number n ∷ t) h m =
    Numbers-past k before (number n) t
      (slots-Numbers k (before ++ number n ∷ []) t (quiet before (number n) h refl) m) refl

slots-replaced :
    (d : Dialect) (k : ℕ) (t : Text)
    → IsPositional d
    → marks_only t ≡ true
    → slots (replace_marks (count_marks t) d k t) ≡ expected d k (count_marks t)
slots-replaced d k t h m =
    ap slots (replace_marks-positional (count_marks t) d k t h) ∙ slots-positional d k t h m

-- The marks of a text become the placeholders of the dialect from an index on.
pub slots-replace :
    (d : Dialect) (k : ℕ) (t : Text)
    → marks_only t ≡ true
    → slots (replace_marks (count_marks t) d k t) ≡ expected d k (count_marks t)
unfolding placeholder count_marks expected slots
slots-replace mysql k t m = slots-replaced mysql k t (λ _. refl) m
slots-replace postgresql k t m = slots-Numbers k [] t refl m
slots-replace sqlite k t m = slots-replaced sqlite k t (λ _. refl) m
slots-replace clickhouse k t m = slots-replaced clickhouse k t (λ _. refl) m
slots-replace default_dialect k t m = slots-replaced default_dialect k t (λ _. refl) m

slots-shift_all : (k : ℕ) (t : Text) → slots (shift_all k t) ≡ shift_all k (slots t)
unfolding slots shift_all
slots-shift_all k [] = refl
slots-shift_all k (mark ∷ t) = ap (λ l. mark ∷ l) (slots-shift_all k t)
slots-shift_all k (numbered n ∷ t) = ap (λ l. numbered (n + k) ∷ l) (slots-shift_all k t)
slots-shift_all k (word w ∷ t) = slots-shift_all k t
slots-shift_all k (name n ∷ t) = slots-shift_all k t
slots-shift_all k (number n ∷ t) = slots-shift_all k t

shift_all-expected :
    (k j n : ℕ) → shift_all k (expected postgresql j n) ≡ expected postgresql (j + k) n
unfolding shift_all expected placeholder
shift_all-expected k j zero = refl
shift_all-expected k j (suc n) =
    let e : j + 1 + k ≡ j + k + 1 = omega arith in
    ap₂ (λ (i : ℕ) l. numbered i ∷ l) e
      (shift_all-expected k (j + 1) n ∙ ap (λ (i : ℕ). expected postgresql i n) e)

expected-positional : (d : Dialect) (j k n : ℕ) → IsPositional d → expected d j n ≡ expected d k n
unfolding expected
expected-positional d j k zero h = refl
expected-positional d j k (suc n) h =
    ap₂ (λ p l. p ∷ l) (h j ∙ sym (h k)) (expected-positional d (j + 1) (k + 1) n h)

-- A query that stands behind `k` arguments.
pub slots-shift :
    (d : Dialect) (k n : ℕ) (t : Text)
    → slots t ≡ expected d 0 n
    → slots (shift_placeholders_if_needed t d k) ≡ expected d k n
unfolding shift_placeholders_if_needed placeholder
slots-shift postgresql k n t h = elim (Bool-cases (eqb k 0)) [
  | inl z ↦ let e : 0 ≡ k = ground arith in rw z (h ∙ ap (λ (i : ℕ). expected postgresql i n) e)
  | inr z ↦ rw z (
      slots-shift_all k t
      ∙ ap (shift_all k) h
      ∙ shift_all-expected k 0 n
      ∙ ap (λ (i : ℕ). expected postgresql i n) (omega arith))
]
slots-shift mysql k n t h = h ∙ expected-positional mysql 0 k n (λ _. refl)
slots-shift sqlite k n t h = h ∙ expected-positional sqlite 0 k n (λ _. refl)
slots-shift clickhouse k n t h = h ∙ expected-positional clickhouse 0 k n (λ _. refl)
slots-shift default_dialect k n t h = h ∙ expected-positional default_dialect 0 k n (λ _. refl)
