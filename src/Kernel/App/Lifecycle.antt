-- ===== src/Kernel/App/Lifecycle.antt =====
-- The calls that the application makes of its plugins.
use golang_gin_rpc.Base.{
  ℕ, ◌≡◌, refl, sym, ap, ap₂, true, Option, none, some, List, [], ◌∷◌, ◌++◌, reverse, map, arith,
  String, ◌==◌, ==_iff, ==_self, string_eq, contains, contains-append, All, Bool-cases, inl, inr,
}
use mathlib.Core.List.{append_assoc, append-nil}
use golang_gin_rpc.Base.Count.{contains-count, count-reverse}
use golang_gin_rpc.Kernel.Registry.{Plugin}
use golang_gin_rpc.Kernel.Loader.{plugin_names}
use golang_gin_rpc.Kernel.App.{
  App, Call, starts, stops, Err, find_plugin, stop_each, rollback, StartError, start_failed, start,
  stop, start_from,
}

abbrev pub fresh : List Plugin → App
fresh ps = record { plugins = ps; started = [] }

find-contains :
    (ps : List Plugin) (name : String)
    → contains (plugin_names ps) name ≡ true
    → (p : Plugin) × (find_plugin ps name ≡ some p) × (p.name ≡ name)
unfolding find_plugin
find-contains [] name c = absurd (ground arith)
find-contains (p ∷ ps) name c = elim (Bool-cases (p.name == name)) [
  | inl same ↦ (p, rw same, (==_iff p.name name).0 same)
  | inr other ↦
      let (q, e, n) = find-contains ps name (ground arith) in (q, rw (other, find_plugin) e, n)
]

-- Every name that is a plugin's is stopped, whatever errors there are.
stop_each-calls :
    (stopping : Plugin → Option ℕ) (ps : List Plugin) (names : List String)
    → All (λ name. contains (plugin_names ps) name ≡ true) names
    → (stop_each stopping ps names).0 ≡ map stops names
unfolding stop_each
stop_each-calls stopping ps [] a = refl
stop_each-calls stopping ps (name ∷ names) a =
    let (p, e, n) = find-contains ps name a.0 in
    rw (e, stop_each) (ap₂ (λ x y. stops x ∷ y) n (stop_each-calls stopping ps names a.1))

All-contained :
    (ps : List Plugin) (names : List String)
    → ((v : String) → contains names v ≡ true → contains (plugin_names ps) v ≡ true)
    → All (λ name. contains (plugin_names ps) name ≡ true) names
All-contained ps [] h = tt
All-contained ps (n ∷ names) h =
    (h n (ground (arith, ==_self n)), All-contained ps names (λ v c. h v (ground arith)))

start_from-succeeds :
    (starting stopping : Plugin → Option ℕ) (a : App) (ps : List Plugin)
    → All (λ p. starting p ≡ none) ps
    → start_from starting stopping a ps
      ≡ (record a { started = a.started ++ plugin_names ps }, map starts (plugin_names ps), none)
unfolding start_from
start_from-succeeds starting stopping a [] h =
    ap (λ x. (record a { started = x }, [], none)) (sym (append-nil a.started))
start_from-succeeds starting stopping a (p ∷ ps) h =
    let a' = record a { started = a.started ++ (p.name ∷ []) } in
    rw (h.0, start_from, start_from-succeeds starting stopping a' ps h.1)
      (ap (λ x. (record a { started = x }, map starts (plugin_names (p ∷ ps)), none))
        (append_assoc a.started (p.name ∷ []) (plugin_names ps)))

-- A start that fails: the calls so far, the failing one, and the rollback.
abbrev undone : (Plugin → Option ℕ) → App → List Call → Err → App × List Call × Option StartError
undone stopping a calls err =
    let (a', more, errs) = rollback stopping a in
    (a', calls ++ (starts err.0 ∷ more), some (start_failed err errs))

start_from-fails :
    (starting stopping : Plugin → Option ℕ) (a : App) (pre : List Plugin) (p : Plugin)
    (post : List Plugin) (n : ℕ)
    → All (λ p. starting p ≡ none) pre
    → starting p ≡ some n
    → start_from starting stopping a (pre ++ (p ∷ post))
      ≡ undone stopping
          (record a { started = a.started ++ plugin_names pre })
          (map starts (plugin_names pre))
          (p.name, n)
unfolding start_from
start_from-fails starting stopping a [] p post n h e =
    rw (e, start_from)
      (ap (λ l. undone stopping (record a { started = l }) [] (p.name, n))
        (sym (append-nil a.started)))
start_from-fails starting stopping a (q ∷ pre) p post n h e =
    let a' = record a { started = a.started ++ (q.name ∷ []) } in
    rw (h.0, start_from, start_from-fails starting stopping a' pre p post n h.1 e)
      (ap
        (λ l.
          undone stopping (record a { started = l }) (starts q.name ∷ map starts (plugin_names pre))
            (p.name, n))
        (append_assoc a.started (q.name ∷ []) (plugin_names pre)))

names-append : (xs ys : List Plugin) → plugin_names (xs ++ ys) ≡ plugin_names xs ++ plugin_names ys
names-append [] ys = refl
names-append (x ∷ xs) ys = ap (◌∷◌ x.name) (names-append xs ys)

contains-reverse : (xs : List String) (v : String) → contains (reverse xs) v ≡ contains xs v
contains-reverse xs v =
    ground (arith, contains-count v xs, contains-count v (reverse xs), count-reverse v xs)

-- Stopping the first plugins of an application, the last of them first.
stop_first :
    (stopping : Plugin → Option ℕ) (pre post : List Plugin)
    → (stop_each stopping (pre ++ post) (reverse (plugin_names pre))).0
      ≡ map stops (reverse (plugin_names pre))
stop_first stopping pre post = stop_each-calls stopping (pre ++ post) (reverse (plugin_names pre)) (
    All-contained (pre ++ post) (reverse (plugin_names pre)) (λ v c. rw (names-append pre post) (
      ground (
        arith,
        contains-append (plugin_names pre) (plugin_names post) v,
        contains-reverse (plugin_names pre) v,
      ))))

-- When a plugin fails to start, the application has started those before it in order, tries none
-- after it, stops those that it has started in the reverse order, whatever they return, and is
-- left with none started and the plugin's error.
pub start_rolls_back :
    (starting stopping : Plugin → Option ℕ) (pre : List Plugin) (p : Plugin) (post : List Plugin)
    (n : ℕ)
    → All (λ p. starting p ≡ none) pre
    → starting p ≡ some n
    → let (a, calls, err) = start starting stopping (fresh (pre ++ (p ∷ post))) in
      (a.started ≡ [])
      × (calls
          ≡ map starts (plugin_names pre)
            ++ (starts p.name ∷ map stops (reverse (plugin_names pre))))
      × ((errs : List Err) × (err ≡ some (start_failed (p.name, n) errs)))
unfolding start rollback
start_rolls_back starting stopping pre p post n h e =
    rw (start_from-fails starting stopping (fresh (pre ++ (p ∷ post))) pre p post n h e) (
      refl,
      ap (λ x. map starts (plugin_names pre) ++ (starts p.name ∷ x))
          (stop_first stopping pre (p ∷ post)),
      (_, refl),
    )

-- When every plugin starts, they are started in order and are all started, and `Stop` stops each
-- of them in the reverse order, whatever they return, and leaves none started.
pub start_then_stop :
    (starting stopping closing : Plugin → Option ℕ) (ps : List Plugin)
    → All (λ p. starting p ≡ none) ps
    → let (a, calls, err) = start starting stopping (fresh ps) in
      let (a', calls', errs) = stop closing a in
      (err ≡ none)
      × (calls ≡ map starts (plugin_names ps))
      × (a.started ≡ plugin_names ps)
      × (calls' ≡ map stops (reverse (plugin_names ps)))
      × (a'.started ≡ [])
unfolding start stop rollback
start_then_stop starting stopping closing ps h =
    rw (start_from-succeeds starting stopping (fresh ps) ps h)
      (refl, refl, refl, rw append-nil at (stop_first closing ps []), refl)
