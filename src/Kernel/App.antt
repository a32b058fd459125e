-- ===== src/Kernel/App.antt =====
-- pkg/kernel/loader.go, the application: starting its plugins in order, undoing a start that
-- fails, stopping them. What `Start` and `Stop` of a plugin return is an argument of each call.
pub mod Lifecycle
use golang_gin_rpc.Base.{
  ℕ, Bool, true, false, Option, none, some, List, [], ◌∷◌, ◌++◌, reverse, String, ◌==◌, string_eq,
  contains, if◌then◌else◌,
}
use golang_gin_rpc.Kernel.Registry.{Plugin}

pub record App : Type 0 where
  pub plugins : List Plugin
  pub started : List String

-- A call that the application makes of a plugin.
pub data Call : Type 0 where
  starts stops : String → Call

-- An error of a plugin's method, with the plugin's name.
abbrev pub Err : Type 0
Err = String × ℕ

unfoldable pub find_plugin : List Plugin → String → Option Plugin
find_plugin [] name = none
find_plugin (p ∷ ps) name = if p.name == name then some p else find_plugin ps name

abbrev with_error : String → Option ℕ → List Err → List Err
with_error name none errs = errs
with_error name (some n) errs = (name, n) ∷ errs

-- The loop of `rollbackLocked`, from the last started plugin to the first: its calls and errors.
unfoldable pub stop_each : (Plugin → Option ℕ) → List Plugin → List String → List Call × List Err
stop_each stop ps [] = ([], [])
stop_each stop ps (name ∷ names) =
    let (calls, errs) = stop_each stop ps names in
    elim (find_plugin ps name) [
      | none ↦ (calls, errs)
      | some p ↦ (stops p.name ∷ calls, with_error name (stop p) errs)
    ]

unfoldable pub rollback : (Plugin → Option ℕ) → App → App × List Call × List Err
rollback stop a =
    let (calls, errs) = stop_each stop a.plugins (reverse a.started) in
    (record a { started = [] }, calls, errs)

-- The error of `Start`: that of the plugin, with those of the rollback.
pub data StartError : Type 0 where
  start_failed : Err → List Err → StartError

start_from :
    (Plugin → Option ℕ)
    → (Plugin → Option ℕ)
    → App
    → List Plugin
    → App × List Call × Option StartError
start_from start stop a [] = (a, [], none)
start_from start stop a (p ∷ ps) = elim (start p) [
  | none ↦
      let (a', calls, err) =
        start_from start stop (record a { started = a.started ++ (p.name ∷ []) }) ps in
      (a', starts p.name ∷ calls, err)
  | some n ↦
      let (a', calls, errs) = rollback stop a in
      (a', starts p.name ∷ calls, some (start_failed (p.name, n) errs))
]

unfoldable pub start :
    (Plugin → Option ℕ) → (Plugin → Option ℕ) → App → App × List Call × Option StartError
unfolding start_from
start starting stopping a = start_from starting stopping a a.plugins

unfoldable pub stop : (Plugin → Option ℕ) → App → App × List Call × List Err
stop stopping a = rollback stopping a

abbrev pub is_started : App → String → Bool
is_started a name = contains a.started name
