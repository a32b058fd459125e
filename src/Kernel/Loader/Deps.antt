-- ===== src/Kernel/Loader/Deps.antt =====
-- The dependencies that `topoSort` is given: deduplicated, closed and with the soft ones added.
use golang_gin_rpc.Base.{
  ◌≡◌, refl, ap, Bool, false, not, ◌&&◌, ◌||◌, Option, none, some, List, [], ◌∷◌, ◌++◌, arith,
  String, ◌==◌, ==_iff, ==_self, string_eq, contains, contains-append, IsDistinct, Bool-cases, inl,
  inr,
}
use golang_gin_rpc.Kernel.Registry.{Plugin}
use golang_gin_rpc.Kernel.Topo.{names}
use golang_gin_rpc.Kernel.Topo.Graph.{deps_of, AllDistinct}
use golang_gin_rpc.Kernel.Loader.{
  dedupe, dedupe_from, add_soft, node_of, nodes_of, plugin_names, plugin_named,
}

contains-dedupe_from :
    (v : String) (seen list : List String)
    → contains (dedupe_from seen list) v ≡ (contains list v && not (contains seen v))
unfolding dedupe_from
contains-dedupe_from v seen [] = refl
contains-dedupe_from v seen (x ∷ list) =
    ground
      (arith, contains-dedupe_from v seen list, contains-dedupe_from v (x ∷ seen) list, ==_iff x v)

dedupe_from-IsDistinct : (seen list : List String) → IsDistinct (dedupe_from seen list)
unfolding dedupe_from
dedupe_from-IsDistinct seen [] = tt
dedupe_from-IsDistinct seen (x ∷ list) = elim (Bool-cases (contains seen x)) [
  | inl old ↦ rw (old, dedupe_from) (dedupe_from-IsDistinct seen list)
  | inr new ↦
      rw (new, dedupe_from)
        (
          ground (arith, contains-dedupe_from x (x ∷ seen) list, ==_self x),
          dedupe_from-IsDistinct (x ∷ seen) list,
        )
]

IsDistinct-append :
    (xs : List String) (v : String)
    → IsDistinct xs
    → contains xs v ≡ false
    → IsDistinct (xs ++ (v ∷ []))
IsDistinct-append [] v d n = (refl, tt)
IsDistinct-append (x ∷ xs) v d n = (
  ground (arith, contains-append xs (v ∷ []) x, d.0, ==_iff v x, ==_iff x v),
  IsDistinct-append xs v d.1 (ground arith),
)

contains-add_soft :
    (v : String) (active deps soft : List String)
    → contains (add_soft active deps soft) v
      ≡ (contains deps v || (contains soft v && contains active v))
unfolding add_soft
contains-add_soft v active deps [] = ground arith
contains-add_soft v active deps (d ∷ soft) = ground (
  arith,
  contains-add_soft v active deps soft,
  contains-add_soft v active (deps ++ (d ∷ [])) soft,
  contains-append deps (d ∷ []) v,
  ==_iff d v,
)

add_soft-IsDistinct :
    (active deps soft : List String) → IsDistinct deps → IsDistinct (add_soft active deps soft)
unfolding add_soft
add_soft-IsDistinct active deps [] h = h
add_soft-IsDistinct active deps (d ∷ soft) h =
    elim (Bool-cases (contains active d && not (contains deps d))) [
      | inl new ↦
          rw (new, add_soft)
            (add_soft-IsDistinct active (deps ++ (d ∷ [])) soft
              (IsDistinct-append deps d h (ground arith)))
      | inr old ↦ rw (old, add_soft) (add_soft-IsDistinct active deps soft h)
    ]

-- What must start before a plugin: its dependencies, and the soft ones that take part.
abbrev pub needs : List String → Plugin → String → Bool
needs active p d = contains p.depends d || (contains p.soft_depends d && contains active d)

pub node-needs :
    (active : List String) (p : Plugin) (d : String)
    → contains (node_of active p).deps d ≡ needs active p d
unfolding node_of
node-needs active p d = ground (
  arith,
  contains-add_soft d active (dedupe p.depends) (dedupe p.soft_depends),
  contains-dedupe_from d [] p.depends,
  contains-dedupe_from d [] p.soft_depends,
)

pub nodes-AllDistinct : (active : List String) (ps : List Plugin) → AllDistinct (nodes_of active ps)
unfolding node_of
nodes-AllDistinct active [] = tt
nodes-AllDistinct active (p ∷ ps) = (
  add_soft-IsDistinct active (dedupe p.depends) (dedupe p.soft_depends)
      (dedupe_from-IsDistinct [] p.depends),
  nodes-AllDistinct active ps,
)

pub names-nodes :
    (active : List String) (ps : List Plugin) → names (nodes_of active ps) ≡ plugin_names ps
unfolding node_of
names-nodes active [] = refl
names-nodes active (p ∷ ps) = ap (◌∷◌ p.name) (names-nodes active ps)

abbrev deps_named : List String → Option Plugin → List String
deps_named active none = []
deps_named active (some p) = (node_of active p).deps

pub deps-named :
    (active : List String) (k : String) (ps : List Plugin)
    → deps_of k (nodes_of active ps) ≡ deps_named active (plugin_named k ps)
unfolding node_of
deps-named active k [] = refl
deps-named active k (p ∷ ps) = elim (Bool-cases (p.name == k)) [
  | inl e ↦ rw e
  | inr e ↦ rw e (deps-named active k ps)
]
