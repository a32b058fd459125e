-- ===== src/Kernel/Loader/Correct.antt =====
-- What `Build` returns.
use golang_gin_rpc.Base.{
  ◌<◌, ◌≡◌, ap, sym, subst, ◌∙◌, Bool, true, false, Option, some, List, [], ◌∷◌, arith, String,
  ==_self, string_eq, contains, IsDistinct, All, length, Option-cases, inl, inr, ◌⊎◌, ltb,
}
use golang_gin_rpc.Base.Count.{count, contains-count}
use golang_gin_rpc.Base.Shuffle.{
  Shuffle, Shuffle-IsDistinct, Shuffle-count, Shuffle-All, Shuffle-sym, Shuffle-contains,
}
use golang_gin_rpc.Kernel.Registry.{Plugin}
use golang_gin_rpc.Kernel.Topo.{Node, names}
use golang_gin_rpc.Kernel.Topo.Correct.{IsGraph, IsOrder, IsCyclic, topo_sort_correct}
use golang_gin_rpc.Kernel.Loader.{
  missing_dependency, dependency_cycle, BuildResult, built, failed, first_missing,
  check_dependencies, nodes_of, Visits, plugin_names, plugin_named, select, build_configured, place,
}
use golang_gin_rpc.Kernel.Loader.Deps.{
  needs, node-needs, nodes-AllDistinct, names-nodes, deps-named,
}
use golang_gin_rpc.Kernel.Loader.Names.{
  Shuffle-names, Shuffle-named, HardIn, check-HardIn, node_deps, InOrder, active, select-InOrder,
  graph_closed,
}

-- `range` visits every plugin, in some order.
pub record IsVisit (visits : Visits) (ps : List Plugin) : Type 0 where
  pub checks : Shuffle ps (visits.checks ps)
  pub links : Shuffle ps (visits.links ps)
  pub starts : Shuffle ps (visits.starts ps)
  pub rests : Shuffle ps (visits.rests ps)

-- What `Build` can find of the plugins that take part: an order of all of them in which each comes
-- after what it needs, a plugin with a dependency that takes no part, or names each of which
-- needs one of them.
abbrev pub Verdict : List Plugin → Option BuildResult → Type 0
Verdict ps result =
    ((out : List Plugin) × (result ≡ some (built out))
      × ((v : String) → count v (plugin_names out) ≡ count v (plugin_names ps))
      × InOrder (plugin_names ps) [] out)
    ⊎ ((p : Plugin) × (dep : String) × (result ≡ some (failed (missing_dependency p.name dep)))
        × (contains p.depends dep ≡ true)
        × (contains (plugin_names ps) dep ≡ false))
    ⊎ ((r : List String) × (result ≡ some (failed (dependency_cycle r)))
        × (0 < length r)
        × ((v : String)
            → contains r v ≡ true
            → (p : Plugin) × (d : String) × (plugin_named v ps ≡ some p)
              × (needs (plugin_names ps) p d ≡ true)
              × (contains r d ≡ true)))

first_missing-some :
    (active deps : List String) (d : String)
    → first_missing active deps ≡ some d
    → (contains deps d ≡ true) × (contains active d ≡ false)
unfolding first_missing
first_missing-some active [] d e = absurd (ground arith)
first_missing-some active (x ∷ deps) d e =
    ground (arith, first_missing-some active deps d, ==_self x)

check-some :
    (active : List String) (ps : List Plugin) (name dep : String)
    → check_dependencies active ps ≡ some (name, dep)
    → (p : Plugin) × (p.name ≡ name)
      × (contains p.depends dep ≡ true)
      × (contains active dep ≡ false)
unfolding check_dependencies
check-some active [] name dep e = absurd (ground arith)
check-some active (p ∷ ps) name dep e = elim (Option-cases (first_missing active p.depends)) [
  | inl ok ↦ check-some active ps name dep (rw (ok, check_dependencies) at e)
  | inr (d, bad) ↦
      let named : p.name ≡ name = ground (arith, bad) in
      let same : d ≡ dep = ground (arith, bad) in
      let (c, out) = first_missing-some active p.depends d bad in
      (
        p,
        named,
        subst (λ x. contains p.depends x ≡ true) same c,
        subst (λ x. contains active x ≡ false) same out,
      )
]

module _ (visits : Visits) (less : String → String → Bool) (registered ps : List Plugin)
    (u : IsDistinct (plugin_names ps)) (w : IsVisit visits ps) where
  abbrev nodes : List (Node String)
  nodes = nodes_of (plugin_names ps) (visits.links ps)

  count-node : (v : String) → count v (names nodes) ≡ count v (plugin_names ps)
  count-node v =
      rw (names-nodes (plugin_names ps) (visits.links ps)) (Shuffle-count v (Shuffle-names w.links))

  contains-node : (v : String) → contains (names nodes) v ≡ contains (plugin_names ps) v
  contains-node v =
      rw (names-nodes (plugin_names ps) (visits.links ps))
        (Shuffle-contains v (Shuffle-names w.links))

  nodes-IsGraph :
      All (HardIn (plugin_names ps)) ps
      → IsGraph nodes (plugin_names (visits.starts ps)) (plugin_names (visits.rests ps))
  nodes-IsGraph a = record {
    distinct =
        rw (names-nodes (plugin_names ps) (visits.links ps))
          (Shuffle-IsDistinct (Shuffle-names w.links) u);
    deduped = nodes-AllDistinct (plugin_names ps) (visits.links ps);
    visits = λ v. Shuffle-count v (Shuffle-names w.starts) ∙ sym (count-node v);
    lists = λ v. Shuffle-count v (Shuffle-names w.rests) ∙ sym (count-node v);
    closed = λ v d cv cd.
        contains-node d
        ∙ graph_closed ps (visits.links ps) w.links u a v d (sym (contains-node v) ∙ cv) cd;
  }

  order_named :
      (o : List String)
      → ((v : String) → count v o ≡ count v (names nodes))
      → (k : String) → contains o k ≡ true
      → contains (plugin_names ps) k ≡ true
  order_named o h k c =
      ground (arith, h k, count-node k, contains-count k o, contains-count k (plugin_names ps))

  sorts :
      (o : List String)
      → IsOrder nodes o
      → ((v : String) → count v (plugin_names (select o ps)) ≡ count v (plugin_names ps))
        × InOrder (plugin_names ps) [] (select o ps)
  sorts o (h, r) =
      let (later, same) = select-InOrder ps (visits.links ps) w.links u [] o r (order_named o h) in
      (λ v. rw same (h v ∙ count-node v), later)

  loops :
      (r : List String) (v : String)
      → IsCyclic nodes r
      → contains r v ≡ true
      → (p : Plugin) × (d : String) × (plugin_named v ps ≡ some p)
        × (needs (plugin_names ps) p d ≡ true)
        × (contains r d ≡ true)
  loops r v c m =
      let (d, dep, here) = c v m in
      elim (Option-cases (plugin_named v ps)) [
        | inl unknown ↦ absurd (
            ground (
              arith,
              unknown,
              deps-named (plugin_names ps) v (visits.links ps),
              Shuffle-named v w.links u,
            ))
        | inr (p, found) ↦ (
          p,
          d,
          found,
          sym (node-needs (plugin_names ps) p d)
              ∙ (rw (node_deps (plugin_names ps) v p w.links u found) at dep),
          here,
        )
      ]

  pub verdict : Verdict ps (build_configured visits less registered ps)
  unfolding build_configured
  verdict = elim (Option-cases (check_dependencies (plugin_names ps) (visits.checks ps))) [
    | inl ok ↦
        elim (topo_sort_correct (λ a b. ltb (place a registered) (place b registered)) less nodes
          (plugin_names (visits.starts ps)) (plugin_names (visits.rests ps))
          (nodes-IsGraph (
            Shuffle-All _ (Shuffle-sym w.checks)
              (check-HardIn (plugin_names ps) (visits.checks ps) ok)))) [
                | inl (o, sorted, h) ↦
                    let (all, later) = sorts o h in
                    inl (select o ps, rw (ok, build_configured, sorted), all, later)
                | inr (r, found, c, l) ↦
                    inr (inr (r, rw (ok, build_configured, found), l, λ v m. loops r v c m))
              ]
    | inr ((name, dep), bad) ↦
        let (p, n, c, out) = check-some (plugin_names ps) (visits.checks ps) name dep bad in
        inr (
          inl (
            p,
            dep,
            rw (bad, build_configured) (ap (λ x. some (failed (missing_dependency x dep))) (sym n)),
            c,
            out,
          ))
  ]
