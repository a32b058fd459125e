-- ===== src/Kernel/Tests.antt =====
-- The kernel on concrete inputs.
use golang_gin_rpc.Base.{
  ℕ, ◌<◌, ◌≡◌, refl, true, false, Option, none, some, List, [], ◌∷◌, arith, String, ◌==◌, string_eq,
  contains, nat_eq, IsDistinct, ltb, ◌⊎◌, lookup, insert, length, eqb, if◌then◌else◌,
}
use golang_gin_rpc.Base.Shuffle.{Shuffle-refl}
use golang_gin_rpc.Kernel.Registry.{Plugin}
use golang_gin_rpc.Kernel.Sort.{sort_slice_stable}
use golang_gin_rpc.Kernel.Topo.{
  Node, ordered, cycle, topo_sort, kahn, roots, graph, release, add_dependents,
}
use golang_gin_rpc.Kernel.Topo.Graph.{deps_of}
use golang_gin_rpc.Kernel.Topo.Correct.{IsGraph, IsOrder, IsCyclic, topo_sort_correct}
use golang_gin_rpc.Kernel.Loader.{
  Configured, ready, Visits, build, failed, configure_failed, plugin_names,
}
use golang_gin_rpc.Kernel.Loader.Correct.{IsVisit, Verdict}
use golang_gin_rpc.Kernel.Loader.Build.{taking_part, first_failure, build_correct}
use golang_gin_rpc.Kernel.App.{starts, stops, start}
use golang_gin_rpc.Kernel.App.Lifecycle.{fresh, start_rolls_back}

abbrev plugin : String → List String → Plugin
plugin name deps = record { name = name; depends = deps; soft_depends = []; origin = 0 }

abbrev cache : Plugin
cache = plugin "cache" ("db" ∷ [])

abbrev db : Plugin
db = plugin "db" []

-- 1 and 2 depend on 0.
abbrev three : List (Node ℕ)
three =
    record { name = 1; deps = 0 ∷ [] }
    ∷ record { name = 2; deps = 0 ∷ [] }
    ∷ record { name = 0; deps = [] }
    ∷ []

three_closed :
    (v d : ℕ)
    → contains (1 ∷ 2 ∷ 0 ∷ []) v ≡ true
    → contains (deps_of v three) d ≡ true
    → contains (1 ∷ 2 ∷ 0 ∷ []) d ≡ true
three_closed v d c h = ground arith

three-IsGraph : IsGraph three (1 ∷ 2 ∷ 0 ∷ []) (0 ∷ 2 ∷ 1 ∷ [])
three-IsGraph = record {
  distinct = (refl, (refl, (refl, tt)));
  deduped = ((refl, tt), ((refl, tt), (tt, tt)));
  visits = λ v. refl;
  lists = λ v. ground arith;
  closed = three_closed;
}

three_sorted :
    topo_sort ltb ltb three (1 ∷ 2 ∷ 0 ∷ []) (0 ∷ 2 ∷ 1 ∷ []) ≡ some (ordered (0 ∷ 1 ∷ 2 ∷ []))
unfolding topo_sort kahn sort_slice_stable roots lookup graph insert release add_dependents
three_sorted = refl

topo_sort_correct_example :
    ((o : List ℕ) × (topo_sort ltb ltb three (1 ∷ 2 ∷ 0 ∷ []) (0 ∷ 2 ∷ 1 ∷ []) ≡ some (ordered o))
      × IsOrder three o)
    ⊎ ((r : List ℕ) × (topo_sort ltb ltb three (1 ∷ 2 ∷ 0 ∷ []) (0 ∷ 2 ∷ 1 ∷ []) ≡ some (cycle r))
        × IsCyclic three r
        × (0 < length r))
topo_sort_correct_example =
    topo_sort_correct ltb ltb three (1 ∷ 2 ∷ 0 ∷ []) (0 ∷ 2 ∷ 1 ∷ []) three-IsGraph

-- The rank of a name: 0 for the one that the others depend on.
rank : ℕ → ℕ
rank k = if eqb k 0 then 0 else 1

abbrev visits : Visits
visits = record { checks = λ ps. ps; links = λ ps. ps; starts = λ ps. ps; rests = λ ps. ps }

abbrev both : List Plugin
both = cache ∷ db ∷ []

all_ready : Plugin → Configured
all_ready p = ready

both-IsDistinct : IsDistinct (plugin_names both)
both-IsDistinct = (refl, (refl, tt))

both_visited : IsVisit visits (taking_part none all_ready both)
both_visited = record {
  checks = Shuffle-refl _;
  links = Shuffle-refl _;
  starts = Shuffle-refl _;
  rests = Shuffle-refl _;
}

build_correct_example :
    ((name : String) × (n : ℕ) × (first_failure none all_ready both ≡ some (name, n))
      × (build none all_ready visits (λ a b. false) both ≡ some (failed (configure_failed name n))))
    ⊎ ((first_failure none all_ready both ≡ none)
        × Verdict
            (taking_part none all_ready both)
            (build none all_ready visits (λ a b. false) both))
build_correct_example =
    build_correct none all_ready visits (λ a b. false) both both-IsDistinct both_visited

-- The second of two plugins fails to start.
abbrev second_fails : Plugin → Option ℕ
second_fails p = if p.name == "cache" then some 7 else none

start_rolls_back_example :
    (start second_fails (λ p. none) (fresh (db ∷ cache ∷ []))).1
    ≡ starts "db" ∷ starts "cache" ∷ stops "db" ∷ []
start_rolls_back_example =
    (start_rolls_back second_fails (λ p. none) (db ∷ []) cache [] 7 (refl, tt) refl).1
