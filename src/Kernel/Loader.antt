-- ===== src/Kernel/Loader.antt =====
-- pkg/kernel/loader.go: `Build`, `registered`, `isEnabled` and the small helpers. What a plugin's
-- `Configure` returns is an argument, and so is the order in which each `range` visits the map of
-- the configured plugins. Log lines are left out.
pub mod Deps
pub mod Build
pub mod Names
pub mod Correct
use golang_gin_rpc.Base.{
  ℕ, Bool, true, false, not, ◌&&◌, ◌||◌, Option, none, some, List, [], ◌∷◌, ◌++◌, map, String, Eq,
  ◌==◌, string_eq, Dict, lookup, has, contains, if◌then◌else◌, ltb, ◌+◌,
}
use golang_gin_rpc.Kernel.Registry.{Plugin, Registry, plugins, plugins_in_order, get}
use golang_gin_rpc.Kernel.Topo.{Node, Result, ordered, cycle, topo_sort}

-- The `plugins` section of the configuration: `none` when there is no source, no such section or
-- an error, and `none` for an `enabled` that is not set.
abbrev pub Toggles : Type 0
Toggles = Option (Dict String (Option Bool))

abbrev toggle : Option (Option Bool) → Bool
toggle none = true
toggle (some none) = true
toggle (some (some enabled)) = enabled

unfoldable pub is_enabled : Toggles → String → Bool
is_enabled none name = true
is_enabled (some section) name = toggle (lookup name section)

-- A nil plugin in the registry would panic; the registry has none (`Kernel.Registry.Snapshot`).
abbrev pub present : List (Option Plugin) → List Plugin
present [] = []
present (none ∷ ps) = present ps
present (some p ∷ ps) = p ∷ present ps

-- The plugins of the second list whose names the registry does not have.
unfoldable pub uncovered : Registry → List Plugin → List Plugin
uncovered r [] = []
uncovered r (p ∷ ps) = if not (has p.name r.plugins) then p ∷ uncovered r ps else uncovered r ps

-- `none` for the loader's registry when it is nil or the default registry itself.
unfoldable pub registered : Option Registry → Registry → List Plugin
registered none default = present (plugins default)
registered (some r) default = present (plugins r) ++ uncovered r (present (plugins default))

-- What `Configure` returns: nil, `ErrDisabled` or another error.
pub data Configured : Type 0 where
  ready opts_out : Configured
  fails : ℕ → Configured

pub data BuildError : Type 0 where
  configure_failed : String → ℕ → BuildError
  missing_dependency : String → String → BuildError
  dependency_cycle : List String → BuildError

pub data BuildResult : Type 0 where
  built : List Plugin → BuildResult
  failed : BuildError → BuildResult

pub data ConfigureResult : Type 0 where
  configured : List Plugin → ConfigureResult
  stopped : String → ℕ → ConfigureResult

abbrev keep_configured : Plugin → ConfigureResult → ConfigureResult
keep_configured p (configured ps) = configured (p ∷ ps)
keep_configured p (stopped name n) = stopped name n

-- The first two loops: the plugins that are enabled and that `Configure` accepts. No two registered
-- plugins share a name, so that the maps lose none.
unfoldable pub configure_all : Toggles → (Plugin → Configured) → List Plugin → ConfigureResult
configure_all toggles configure [] = configured []
configure_all toggles configure (p ∷ ps) =
    if not (is_enabled toggles p.name)
    then configure_all toggles configure ps
    else elim (configure p) [
      | ready ↦ keep_configured p (configure_all toggles configure ps)
      | opts_out ↦ configure_all toggles configure ps
      | fails n ↦ stopped p.name n
    ]

abbrev pub plugin_names : List Plugin → List String
plugin_names [] = []
plugin_names (p ∷ ps) = p.name ∷ plugin_names ps

-- The first of the dependencies that is not configured.
unfoldable pub first_missing : List String → List String → Option String
first_missing active [] = none
first_missing active (dep ∷ deps) =
    if not (contains active dep) then some dep else first_missing active deps

-- The third loop, over the plugins in the order of the visit.
unfoldable pub check_dependencies : List String → List Plugin → Option (String × String)
check_dependencies active [] = none
check_dependencies active (p ∷ ps) = elim (first_missing active p.depends) [
  | none ↦ check_dependencies active ps
  | some dep ↦ some (p.name, dep)
]

-- `dedupe`, with `seen` the values that it has met.
unfoldable pub dedupe_from : List String → List String → List String
dedupe_from seen [] = []
dedupe_from seen (v ∷ rest) = elim (contains seen v) [
  | true ↦ dedupe_from seen rest
  | false ↦ v ∷ dedupe_from (v ∷ seen) rest
]

abbrev pub dedupe : List String → List String
dedupe list = dedupe_from [] list

-- The soft dependencies that are configured and not yet among the dependencies.
unfoldable pub add_soft : List String → List String → List String → List String
add_soft active deps [] = deps
add_soft active deps (dep ∷ rest) =
    add_soft active
      (if contains active dep && not (contains deps dep) then deps ++ (dep ∷ []) else deps) rest

unfoldable pub node_of : List String → Plugin → Node String
node_of active p = record {
  name = p.name;
  deps = add_soft active (dedupe p.depends) (dedupe p.soft_depends);
}

abbrev pub nodes_of : List String → List Plugin → List (Node String)
nodes_of active [] = []
nodes_of active (p ∷ ps) = node_of active p ∷ nodes_of active ps

-- The orders of the visits: of the check, of the first and second loop of `topoSort`, and of the
-- search for the names on a cycle.
pub record Visits : Type 0 where
  pub checks : List Plugin → List Plugin
  pub links : List Plugin → List Plugin
  pub starts : List Plugin → List Plugin
  pub rests : List Plugin → List Plugin

-- `configured[name]` for a name of the order.
abbrev pub plugin_named : String → List Plugin → Option Plugin
plugin_named name [] = none
plugin_named name (p ∷ ps) = if p.name == name then some p else plugin_named name ps

abbrev pub select : List String → List Plugin → List Plugin
select order ps = present (map (λ name. plugin_named name ps) order)

-- `seq[name]`: the last place of a name among the registered plugins, 0 when it is not there.
abbrev pub place_from : ℕ → ℕ → String → List Plugin → ℕ
place_from found i name [] = found
place_from found i name (p ∷ ps) = place_from (if p.name == name then i else found) (i + 1) name ps

abbrev pub place : String → List Plugin → ℕ
place name registered = place_from 0 0 name registered

abbrev sorted_or : List Plugin → Option (Result String) → Option BuildResult
sorted_or ps none = none
sorted_or ps (some (ordered order)) = some (built (select order ps))
sorted_or ps (some (cycle names)) = some (failed (dependency_cycle names))

pub build_configured :
    Visits → (String → String → Bool) → List Plugin → List Plugin → Option BuildResult
build_configured visits less registered ps =
    let active = plugin_names ps in
    elim (check_dependencies active (visits.checks ps)) [
      | some (name, dep) ↦ some (failed (missing_dependency name dep))
      | none ↦ sorted_or ps (
          topo_sort (λ a b. ltb (place a registered) (place b registered)) less
            (nodes_of active (visits.links ps)) (plugin_names (visits.starts ps))
            (plugin_names (visits.rests ps)))
    ]

-- `Build` over the registered plugins; `none` means that the fuel of `topo_sort` ran out.
unfoldable pub build :
    Toggles
    → (Plugin → Configured)
    → Visits
    → (String → String → Bool)
    → List Plugin
    → Option BuildResult
unfolding build_configured
build toggles configure visits less registered = elim (configure_all toggles configure registered) [
  | configured ps ↦ build_configured visits less registered ps
  | stopped name n ↦ some (failed (configure_failed name n))
]
