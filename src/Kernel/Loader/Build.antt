-- ===== src/Kernel/Loader/Build.antt =====
-- `Build` from the registered plugins: which of them take part, and what it returns.
use golang_gin_rpc.Base.{
  ℕ, ◌≡◌, refl, sym, subst, Bool, true, false, ◌&&◌, Option, none, some, List, [], ◌∷◌, arith,
  String, string_eq, contains, IsDistinct, if◌then◌else◌, Bool-cases, Option-cases, inl, inr, ◌⊎◌,
}
use golang_gin_rpc.Kernel.Registry.{Plugin}
use golang_gin_rpc.Kernel.Loader.{
  Toggles, is_enabled, Configured, ready, opts_out, fails, failed, configure_failed,
  ConfigureResult, configured, stopped, configure_all, plugin_names, Visits, build_configured,
  build,
}
use golang_gin_rpc.Kernel.Loader.Correct.{IsVisit, Verdict, verdict}

-- A plugin takes part when it is enabled and `Configure` returns nil.
abbrev is_ready : Configured → Bool
is_ready ready = true
is_ready opts_out = false
is_ready (fails n) = false

abbrev pub taking_part : Toggles → (Plugin → Configured) → List Plugin → List Plugin
taking_part toggles configure [] = []
taking_part toggles configure (p ∷ ps) =
    if is_enabled toggles p.name && is_ready (configure p)
    then p ∷ taking_part toggles configure ps
    else taking_part toggles configure ps

-- The first enabled plugin whose `Configure` fails.
abbrev pub first_failure : Toggles → (Plugin → Configured) → List Plugin → Option (String × ℕ)
first_failure toggles configure [] = none
first_failure toggles configure (p ∷ ps) = elim (configure p) [
  | fails n ↦
      if is_enabled toggles p.name then some (p.name, n) else first_failure toggles configure ps
  | _ ↦ first_failure toggles configure ps
]

abbrev as_result : Option (String × ℕ) → List Plugin → ConfigureResult
as_result none ps = configured ps
as_result (some (name, n)) ps = stopped name n

configure-result :
    (toggles : Toggles) (configure : Plugin → Configured) (ps : List Plugin)
    → configure_all toggles configure ps
      ≡ as_result (first_failure toggles configure ps) (taking_part toggles configure ps)
unfolding configure_all
configure-result toggles configure [] = refl
configure-result toggles configure (p ∷ ps) = ground (arith, configure-result toggles configure ps)

taking_part-other :
    (toggles : Toggles) (configure : Plugin → Configured) (ps : List Plugin) (v : String)
    → contains (plugin_names ps) v ≡ false
    → contains (plugin_names (taking_part toggles configure ps)) v ≡ false
taking_part-other toggles configure [] v h = refl
taking_part-other toggles configure (p ∷ ps) v h =
    ground (arith, taking_part-other toggles configure ps v)

taking_part-IsDistinct :
    (toggles : Toggles) (configure : Plugin → Configured) (ps : List Plugin)
    → IsDistinct (plugin_names ps)
    → IsDistinct (plugin_names (taking_part toggles configure ps))
taking_part-IsDistinct toggles configure [] d = tt
taking_part-IsDistinct toggles configure (p ∷ ps) d =
    elim (Bool-cases (is_enabled toggles p.name && is_ready (configure p))) [
      | inl on ↦ rw on (
        taking_part-other toggles configure ps p.name d.0,
        taking_part-IsDistinct toggles configure ps d.1,
      )
      | inr off ↦ rw off (taking_part-IsDistinct toggles configure ps d.1)
    ]

build_ready :
    (toggles : Toggles) (configure : Plugin → Configured) (visits : Visits)
    (less : String → String → Bool) (registered : List Plugin)
    → first_failure toggles configure registered ≡ none
    → build toggles configure visits less registered
      ≡ build_configured visits less registered (taking_part toggles configure registered)
unfolding build
build_ready toggles configure visits less registered fine =
    rw (configure-result toggles configure registered, fine, build)

-- `Build` ends, whatever the plugins are and in whatever order the maps are visited. Either the
-- `Configure` of an enabled plugin fails, and the error names the first such; or the plugins that
-- take part are those that are enabled and accept, and `Build` returns an order of all of them in
-- which each comes after its dependencies and those of its soft dependencies that take part, or
-- the name of one with a dependency that takes no part, or names each of which needs one of
-- them.
pub build_correct :
    (toggles : Toggles) (configure : Plugin → Configured) (visits : Visits)
    (less : String → String → Bool) (registered : List Plugin)
    → IsDistinct (plugin_names registered)
    → IsVisit visits (taking_part toggles configure registered)
    → ((name : String) × (n : ℕ) × (first_failure toggles configure registered ≡ some (name, n))
        × (build toggles configure visits less registered
            ≡ some (failed (configure_failed name n))))
      ⊎ ((first_failure toggles configure registered ≡ none)
          × Verdict
              (taking_part toggles configure registered)
              (build toggles configure visits less registered))
unfolding build
build_correct toggles configure visits less registered d w =
    elim (Option-cases (first_failure toggles configure registered)) [
      | inl fine ↦ inr (
        fine,
        subst (Verdict (taking_part toggles configure registered))
            (sym (build_ready toggles configure visits less registered fine))
            (verdict visits less registered (taking_part toggles configure registered)
              (taking_part-IsDistinct toggles configure registered d) w),
      )
      | inr ((name, n), bad) ↦
          inl (name, n, bad, rw (configure-result toggles configure registered, bad, build))
    ]
