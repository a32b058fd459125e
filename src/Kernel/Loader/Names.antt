-- ===== src/Kernel/Loader/Names.antt =====
-- The plugins by their names, and the graph of their dependencies.
use golang_gin_rpc.Base.{
  ◌≡◌, refl, ap₂, sym, subst, ◌∙◌, true, false, none, some, List, [], ◌∷◌, ◌++◌, arith, String,
  ◌==◌, ==_iff, ==_self, string_eq, contains, IsDistinct, All, Bool-cases, Option-cases, inl, inr,
}
use golang_gin_rpc.Base.Shuffle.{Shuffle, nil, keep, swap, trans, Shuffle-IsDistinct}
use golang_gin_rpc.Kernel.Registry.{Plugin}
use golang_gin_rpc.Kernel.Topo.Graph.{deps_of}
use golang_gin_rpc.Kernel.Topo.Loop.{missing, Respects}
use golang_gin_rpc.Kernel.Loader.{
  first_missing, check_dependencies, node_of, nodes_of, plugin_names, plugin_named, select,
}
use golang_gin_rpc.Kernel.Loader.Deps.{needs, node-needs, deps-named}

pub plugin_named-other :
    (k : String) (ps : List Plugin)
    → contains (plugin_names ps) k ≡ false
    → plugin_named k ps ≡ none
plugin_named-other k [] h = refl
plugin_named-other k (p ∷ ps) h = ground (arith, plugin_named-other k ps)

pub Shuffle-names :
    {xs ys : List Plugin} → Shuffle xs ys → Shuffle (plugin_names xs) (plugin_names ys)
Shuffle-names nil = nil
Shuffle-names (keep x s) = keep x.name (Shuffle-names s)
Shuffle-names (swap x y xs) = swap x.name y.name (plugin_names xs)
Shuffle-names (trans s t) = trans (Shuffle-names s) (Shuffle-names t)

-- With distinct names a lookup does not depend on the order of the visit.
pub Shuffle-named :
    (k : String) {xs ys : List Plugin}
    → Shuffle xs ys
    → IsDistinct (plugin_names xs)
    → plugin_named k ys ≡ plugin_named k xs
Shuffle-named k nil d = refl
Shuffle-named k (keep x s) d = ground (arith, Shuffle-named k s d.1)
Shuffle-named k (swap x y xs) d =
    ground (arith, d.0, ==_iff x.name k, ==_iff y.name k, ==_iff y.name x.name)
Shuffle-named k (trans s t) d =
    Shuffle-named k t (Shuffle-IsDistinct (Shuffle-names s) d) ∙ Shuffle-named k s d

-- Every hard dependency takes part.
abbrev pub HardIn : List String → Plugin → Type 0
HardIn active p = (d : String) → contains p.depends d ≡ true → contains active d ≡ true

pub first_missing-none :
    (active deps : List String)
    → first_missing active deps ≡ none
    → (d : String) → contains deps d ≡ true
    → contains active d ≡ true
unfolding first_missing
first_missing-none active [] e d c = cc
first_missing-none active (x ∷ deps) e d c = ground (
  arith,
  first_missing-none active deps,
  first_missing-none active deps (ground arith) d,
  ==_iff x d,
)

pub check-HardIn :
    (active : List String) (ps : List Plugin)
    → check_dependencies active ps ≡ none
    → All (HardIn active) ps
unfolding check_dependencies
check-HardIn active [] e = tt
check-HardIn active (p ∷ ps) e = elim (Option-cases (first_missing active p.depends)) [
  | inl ok ↦ (
    first_missing-none active p.depends ok,
    check-HardIn active ps (rw (ok, check_dependencies) at e),
  )
  | inr (d, bad) ↦ absurd (ground (arith, bad))
]

-- The plugin's dependencies are those of its node, whatever the order of the visit.
pub node_deps :
    (active : List String) (k : String) {ps qs : List Plugin} (p : Plugin)
    → Shuffle ps qs
    → IsDistinct (plugin_names ps)
    → plugin_named k ps ≡ some p
    → deps_of k (nodes_of active qs) ≡ (node_of active p).deps
node_deps active k {qs} p s d e = rw (deps-named active k qs, Shuffle-named k s d, e)

pub named :
    (k : String) (ps : List Plugin)
    → contains (plugin_names ps) k ≡ true
    → (p : Plugin) × (plugin_named k ps ≡ some p) × (p.name ≡ k)
named k [] c = absurd (ground arith)
named k (p ∷ ps) c = elim (Bool-cases (p.name == k)) [
  | inl same ↦ (p, rw same, (==_iff p.name k).0 same)
  | inr other ↦ let (q, e, n) = named k ps (ground arith) in (q, rw (other, e), n)
]

pub named-All :
    (P : Plugin → Type 0) (k : String) (ps : List Plugin) (p : Plugin)
    → All P ps
    → plugin_named k ps ≡ some p
    → P p
named-All P k [] p a e = absurd (ground arith)
named-All P k (q ∷ ps) p a e = elim (Bool-cases (q.name == k)) [
  | inl same ↦ let found : q ≡ p = ground (arith, same) in subst P found a.0
  | inr other ↦ named-All P k ps p a.1 (rw other at e)
]

-- Each plugin comes after all that must start before it.
abbrev pub InOrder : List String → List String → List Plugin → Type 0
InOrder active seen [] = Unit
InOrder active seen (p ∷ ps) =
    ((d : String) → needs active p d ≡ true → contains seen d ≡ true)
    × InOrder active (seen ++ (p.name ∷ [])) ps

pub missing-none :
    (order ds : List String) (d : String)
    → missing order ds ≡ 0
    → contains ds d ≡ true
    → contains order d ≡ true
missing-none order [] d m c = absurd (ground arith)
missing-none order (x ∷ ds) d m c = ground (arith, missing-none order ds d, ==_iff x d)

module _ (ps qs : List Plugin) (s : Shuffle ps qs) (u : IsDistinct (plugin_names ps)) where
  abbrev pub active : List String
  active = plugin_names ps

  -- The plugins that an order of their names selects.
  pub select-InOrder :
      (seen order : List String)
      → Respects (nodes_of active qs) seen order
      → ((k : String) → contains order k ≡ true → contains active k ≡ true)
      → InOrder active seen (select order ps) × (plugin_names (select order ps) ≡ order)
  select-InOrder seen [] r h = (tt, refl)
  select-InOrder seen (k ∷ order) r h =
      let (p, found, n) = named k ps (h k (ground (arith, ==_self k))) in
      let (later, same) = select-InOrder (seen ++ (k ∷ [])) order r.1 (λ j c. h j (ground arith)) in
      rw found (
        (
          λ d w.
              missing-none seen (node_of active p).deps d
                (rw (node_deps active k p s u found) at r.0) (node-needs active p d ∙ w),
          subst (λ x. InOrder active (seen ++ (x ∷ [])) (select order ps)) (sym n) later,
        ),
        ap₂ ◌∷◌ n same,
      )

  -- The nodes make a graph, once the check has found every hard dependency.
  pub graph_closed :
      All (HardIn active) ps
      → (v d : String) → contains active v ≡ true
      → contains (deps_of v (nodes_of active qs)) d ≡ true
      → contains active d ≡ true
  graph_closed a v d cv cd =
      let (p, found, _) = named v ps cv in
      let hard = named-All (HardIn active) v ps p a found d in
      ground (arith, hard, node-needs active p d, node_deps active v p s u found)
