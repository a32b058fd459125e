-- ===== src/Orm/Parts.antt =====
-- plugins/db/orm/select_builder.go and update_builder.go: the placeholders of the parts of a query.
use golang_gin_rpc.Base.{
  ℕ, zero, suc, ◌+◌, ◌≡◌, ◌≢◌, refl, sym, ◌∙◌, ap, ap₂, subst, Bool, true, false, List, [], ◌∷◌,
  ◌++◌, arith, String, length, length-append, if◌then◌else◌, if_elim, All, get_elem?,
}
use golang_gin_rpc.Base.Int.{ℤ, pos}
use golang_gin_rpc.Orm.{
  Dialect, word, name, number, mark, numbered, Text, count_marks, join, limit_offset, is_positive,
  replace_condition_placeholders, shift_placeholders_if_needed, replace_marks,
}
use golang_gin_rpc.Orm.Fill.{
  Said, says, holds, missing, fill, fill-append, fill-blank, blank-shift, blank-replace, bind,
  bind-fill, Counted-self,
}
use golang_gin_rpc.Orm.Clause.{where_said, clause-said, said_calls}
use golang_gin_rpc.Orm.Kept.{ArePlainCalls}
use golang_gin_rpc.Orm.Where.{Calls, call_each, new_where_builder, WhereBuilder, build_with_offset}
use golang_gin_rpc.Orm.Slots.{
  slots, expected, slots-append, expected-append, slots-replace, slots-shift,
}
use golang_gin_rpc.Orm.Binding.{IsBound, IsEven}
use golang_gin_rpc.Orm.Query.{
  Join, Built, then_built, words, listed, join_table, join_condition, join_one, join_each, behind,
  having_of, shifted, with_clauses,
}

-- A text without placeholders.
abbrev pub IsQuiet : Text → Type 0
IsQuiet t = slots t ≡ []

pub IsQuiet-append : (t u : Text) → IsQuiet t → IsQuiet u → IsQuiet (t ++ u)
IsQuiet-append t u h k = slots-append t u ∙ ap₂ (λ a b. a ++ b) h k

pub IsQuiet-join : (w : String) (ts : List Text) → All IsQuiet ts → IsQuiet (join (word w ∷ []) ts)
unfolding join slots
IsQuiet-join w [] h = refl
IsQuiet-join w (t ∷ []) h = h.0
IsQuiet-join w (t ∷ u ∷ ts) h =
    IsQuiet-append t (word w ∷ join (word w ∷ []) (u ∷ ts)) h.0 (IsQuiet-join w (u ∷ ts) h.1)

pub limit_offset-IsQuiet : (limit offset : ℤ) → IsQuiet (limit_offset limit offset)
unfolding limit_offset slots
limit_offset-IsQuiet limit offset =
    if_elim IsQuiet (is_positive limit)
      (λ _. if_elim IsQuiet (is_positive offset) (λ _. refl) (λ _. refl))
      (λ _. if_elim IsQuiet (is_positive offset) (λ _. refl) (λ _. refl))

abbrev rest_of {ℓ} : {B : Type ℓ} → List B → List B
rest_of [] = []
rest_of (x ∷ xs) = xs

missing_not {ℓ} :
    {A : Type ℓ} {rest : List (Said A)} (cs : List (List (Said A)))
    → missing ∷ rest ≢ where_said "WHERE" cs
missing_not [] e = ground arith
missing_not (c ∷ cs) e = ground arith

holds_not {ℓ} :
    {A : Type ℓ} {a : A} {rest : List (Said A)} (cs : List (List (Said A)))
    → holds a ∷ rest ≢ where_said "WHERE" cs
holds_not [] e = ground arith
holds_not (c ∷ cs) e = ground arith

length-expected : (d : Dialect) (k n : ℕ) → length (expected d k n) ≡ n
unfolding expected
length-expected d k zero = refl
length-expected d k (suc n) = omega (arith, length-expected d (k + 1) n)

-- Behind `k` arguments, a text has the placeholders of its arguments, in order, and with the arguments
-- in their places it reads so.
abbrev pub Says {ℓ} : {A : Type ℓ} → Dialect → ℕ → Built A → List (Said A) → Type ℓ
Says d k (text, args) s = (slots text ≡ expected d k (length args)) × (fill text args ≡ s)

-- What the database reads of a statement.
abbrev pub read {ℓ} : {A : Type ℓ} → Built A → List (Said A)
read (text, args) = bind args 0 text

pub Says-read {ℓ} :
    {A : Type ℓ} (d : Dialect) (b : Built A) (s : List (Said A)) → Says d 0 b s → read b ≡ s
Says-read d b s h =
    bind-fill d b.1 b.1 0 0 b.0 (Counted-self d 0) (λ i. ap (get_elem? b.1) (omega arith)) h.0 ∙ h.1

pub quiet-Says {ℓ} :
    (A : Type ℓ) (d : Dialect) (k : ℕ) (t : Text)
    → IsQuiet t
    → Says d k (words {A = A} t) (fill t [])
unfolding expected
quiet-Says A d k t h = (h, refl)

-- A list of texts without arguments, with its word.
abbrev pub listed_said {ℓ} : (A : Type ℓ) → String → List Text → List (Said A)
listed_said A w ts = fill (listed {A = A} w ts).0 []

pub listed-Says {ℓ} :
    (A : Type ℓ) (d : Dialect) (k : ℕ) (w : String) (ts : List Text)
    → All IsQuiet ts
    → Says d k (listed {A = A} w ts) (listed_said A w ts)
unfolding slots expected
listed-Says A d k w [] h = (refl, refl)
listed-Says A d k w (t ∷ ts) h = (IsQuiet-join "," (t ∷ ts) h, refl)

module _ {ℓ} {A : Type ℓ} where
  -- What a join says, and what the joins of a statement say.
  abbrev pub join_said : Join A → List (Said A)
  join_said j =
      says (word j.kind)
      ∷ says (word "JOIN")
      ∷ (fill j.table (if j.raw_table then j.table_args else [])
          ++ (says (word "ON") ∷ fill j.condition j.args))

  abbrev pub joins_said : List (Join A) → List (Said A)
  joins_said [] = []
  joins_said (j ∷ joins) = join_said j ++ joins_said joins

module _ {ℓ} {A : Type ℓ} (d : Dialect) where
  pub then_built-Says :
      (k : ℕ) (t u : Built A) (s r : List (Said A))
      → Says d k t s
      → Says d (k + length t.1) u r
      → Says d k (then_built t u) (s ++ r)
  then_built-Says k t u s r h g = (
    slots-append t.0 u.0
        ∙ ap₂ (λ a b. a ++ b) h.0 g.0
        ∙ sym (expected-append d k (length t.1) (length u.1))
        ∙ ap (expected d k) (sym (length-append t.1 u.1)),
    fill-append t.0 u.0 t.1 u.1 (ap length h.0 ∙ length-expected d k (length t.1))
        ∙ ap₂ (λ a b. a ++ b) h.1 g.1,
  )

  pub behind-Says :
      (t : Built A) (next : ℕ → Built A) (s r : List (Said A))
      → Says d 0 t s
      → ((k : ℕ) → Says d k (next k) r)
      → Says d 0 (behind t next) (s ++ r)
  behind-Says t next s r h g =
      then_built-Says 0 t (next (length t.1)) s r h
        (subst (λ (k : ℕ). Says d k (next (length t.1)) r) (omega arith) (g (length t.1)))

  -- Words before a text.
  pub after_words :
      (k : ℕ) (t : Text) (u : Built A) (r : List (Said A))
      → IsQuiet t
      → Says d k u r
      → Says d k (then_built (words t) u) (fill t [] ++ r)
  after_words k t u r h g =
      then_built-Says k (words t) u (fill t []) r (quiet-Says A d k t h)
        (subst (λ (i : ℕ). Says d i u r) (omega arith) g)

  -- And behind it.
  pub before_words :
      (k : ℕ) (u : Built A) (t : Text) (s : List (Said A))
      → Says d k u s
      → IsQuiet t
      → Says d k (then_built u (words t)) (s ++ fill t [])
  before_words k u t s g h =
      then_built-Says k u (words t) s (fill t []) g (quiet-Says A d (k + length u.1) t h)

  -- A join whose placeholders are those of its arguments.
  abbrev pub IsJoin : Join A → Type 0
  IsJoin j =
      (if j.raw_table then IsBound d 0 (j.table, j.table_args) else IsQuiet j.table)
      × IsEven j.condition j.args

  join_table-Says :
      (k : ℕ) (j : Join A)
      → IsJoin j
      → Says d k (join_table d k j) (fill j.table (if j.raw_table then j.table_args else []))
  unfolding join_table expected
  join_table-Says k j h = of_raw j.raw_table h.0
    where
      of_raw :
          (raw : Bool)
          → (if raw then IsBound d 0 (j.table, j.table_args) else IsQuiet j.table)
          → Says {A = A} d k
              (if raw
                then (shift_placeholders_if_needed j.table d k, j.table_args)
                else (j.table, []))
              (fill j.table (if raw then j.table_args else []))
      of_raw true h = (
        slots-shift d k (length j.table_args) j.table h,
        fill-blank (shift_placeholders_if_needed j.table d k) j.table j.table_args
            (blank-shift d k j.table),
      )
      of_raw false h = (h, refl)

  join_condition-Says :
      (k : ℕ) (j : Join A) → IsJoin j → Says d k (join_condition d k j) (fill j.condition j.args)
  unfolding join_condition replace_condition_placeholders
  join_condition-Says k j h = (
    slots-replace d k j.condition h.1.0 ∙ ap (expected d k) h.1.1,
    fill-blank (replace_marks (count_marks j.condition) d k j.condition) j.condition j.args
        (blank-replace (count_marks j.condition) d k j.condition),
  )

  join_one-Says : (k : ℕ) (j : Join A) → IsJoin j → Says d k (join_one d k j) (join_said j)
  unfolding join_one slots fill
  join_one-Says k j h =
      let table = join_table d k j in
      let next = join_condition d (k + length table.1) j in
      let s = fill j.table (if j.raw_table then j.table_args else []) in
      let r = fill j.condition j.args in
      after_words k (word j.kind ∷ word "JOIN" ∷ [])
        (then_built table (then_built (words (word "ON" ∷ [])) next)) (s ++ (says (word "ON") ∷ r))
        refl
        (then_built-Says k table (then_built (words (word "ON" ∷ [])) next) s (says (word "ON") ∷ r)
          (join_table-Says k j h)
          (after_words (k + length table.1) (word "ON" ∷ []) next r refl
            (join_condition-Says (k + length table.1) j h)))

  pub join_each-Says :
      (k : ℕ) (joins : List (Join A))
      → All IsJoin joins
      → Says d k (join_each d k joins) (joins_said joins)
  unfolding join_each slots expected fill
  join_each-Says k [] h = (refl, refl)
  join_each-Says k (j ∷ joins) h =
      then_built-Says k (join_one d k j) (join_each d (k + length (join_one d k j).1) joins)
        (join_said j) (joins_said joins) (join_one-Says k j h.0)
        (join_each-Says (k + length (join_one d k j).1) joins h.1)

  -- A builder of conditions is what some calls have made of a new one.
  abbrev pub IsMade : Calls A → WhereBuilder A → Type ℓ
  IsMade calls wb = (wb ≡ call_each calls (new_where_builder d)) × ArePlainCalls d calls

  pub where-Says :
      (calls : Calls A) (wb : WhereBuilder A)
      → IsMade calls wb
      → (k : ℕ) → Says d k (build_with_offset k wb) (where_said "WHERE" (said_calls d calls []))
  where-Says calls wb (made, plain) k =
      subst (λ w. Says d k (build_with_offset k w) (where_said "WHERE" (said_calls d calls [])))
        (sym made) (clause-said d k calls plain)

  pub having-Says :
      (k : ℕ) (b : Built A) (cs : List (List (Said A)))
      → Says d k b (where_said "WHERE" cs)
      → Says d k (having_of b) (where_said "HAVING" cs)
  unfolding fill slots
  having-Says k ([], args) [] h = h
  having-Says k ([], args) (c ∷ cs) h = absurd (ground (arith, h.1))
  having-Says k (word w ∷ t, args) [] h = absurd (ground (arith, h.1))
  having-Says k (name n ∷ t, args) [] h = absurd (ground (arith, h.1))
  having-Says k (number n ∷ t, args) [] h = absurd (ground (arith, h.1))
  having-Says k (word w ∷ t, args) (c ∷ cs) h =
      (h.0, ap (λ l. says (word "HAVING") ∷ rest_of l) h.1)
  having-Says k (name n ∷ t, args) (c ∷ cs) h =
      (h.0, ap (λ l. says (word "HAVING") ∷ rest_of l) h.1)
  having-Says k (number n ∷ t, args) (c ∷ cs) h =
      (h.0, ap (λ l. says (word "HAVING") ∷ rest_of l) h.1)
  having-Says k (mark ∷ t, []) cs h = absurd (missing_not cs h.1)
  having-Says k (mark ∷ t, a ∷ args) cs h = absurd (holds_not cs h.1)
  having-Says k (numbered n ∷ t, []) cs h = absurd (missing_not cs h.1)
  having-Says k (numbered n ∷ t, a ∷ args) cs h = absurd (holds_not cs h.1)

  pub shifted-Says : (k : ℕ) (q : Built A) → IsBound d 0 q → Says d k (shifted d k q) (fill q.0 q.1)
  unfolding shifted
  shifted-Says k (t, args) h = (
    slots-shift d k (length args) t h,
    fill-blank (shift_placeholders_if_needed t d k) t args (blank-shift d k t),
  )

limit-IsQuiet : (limit : ℤ) → IsQuiet (if is_positive limit then limit_offset limit (pos 0) else [])
unfolding slots
limit-IsQuiet limit =
    if_elim IsQuiet (is_positive limit) (λ _. limit_offset-IsQuiet limit (pos 0)) (λ _. refl)

-- What a statement says behind its first words, from what its WHERE clause says.
abbrev pub clauses_said {ℓ} :
    {A : Type ℓ} → List (Join A) → List (Said A) → List Text → ℤ → List (Said A) → List (Said A)
clauses_said {A} joins filter order_by limit first =
    ((first ++ joins_said joins) ++ filter)
    ++ (listed_said A "ORDER BY" order_by
        ++ fill (if is_positive limit then limit_offset limit (pos 0) else []) [])

-- The joins, conditions, order and limit of a statement, whatever its first words.
pub with_clauses-Says {ℓ} :
    {A : Type ℓ} (d : Dialect) (joins : List (Join A)) (calls : Calls A)
    (conditions : WhereBuilder A) (order_by : List Text) (limit : ℤ) (head : Built A)
    (s : List (Said A))
    → Says d 0 head s
    → All (IsJoin d) joins
    → IsMade d calls conditions
    → All IsQuiet order_by
    → Says d 0
        (with_clauses d joins conditions order_by limit head)
        (clauses_said joins (where_said "WHERE" (said_calls d calls [])) order_by limit s)
unfolding with_clauses
with_clauses-Says {A} d joins calls conditions order_by limit head s h hj made ho =
    let joined = behind head (λ k. join_each d k joins) in
    let filtered = behind joined (λ k. build_with_offset k conditions) in
    let last = if is_positive limit then limit_offset limit (pos 0) else [] in
    let filter = where_said "WHERE" (said_calls d calls []) in
    let f = (s ++ joins_said joins) ++ filter in
    let filtered-Says : Says d 0 filtered f =
      behind-Says d joined (λ k. build_with_offset k conditions) (s ++ joins_said joins) filter
        (behind-Says d head (λ k. join_each d k joins) s (joins_said joins) h
          (λ k. join_each-Says d k joins hj))
        (where-Says d calls conditions made) in
    then_built-Says d 0 filtered (then_built (listed "ORDER BY" order_by) (words last)) f
      (listed_said A "ORDER BY" order_by ++ fill last []) filtered-Says
      (before_words d (0 + length filtered.1) (listed "ORDER BY" order_by) last
        (listed_said A "ORDER BY" order_by)
        (listed-Says A d (0 + length filtered.1) "ORDER BY" order_by ho) (limit-IsQuiet limit))
