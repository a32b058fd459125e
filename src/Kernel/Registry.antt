-- ===== src/Kernel/Registry.antt =====
-- pkg/kernel/registry.go and the service locator of pkg/kernel/kernel.go. A plugin is what the
-- loader reads of it: its name and the lists that `Depends` and `SoftDepends` return, which are
-- the same at every call. `origin` tells apart plugins that share a name.
pub mod Snapshot
use golang_gin_rpc.Base.{
  ℕ, Bool, Option, none, some, List, [], ◌∷◌, ◌++◌, map, String, ◌==◌, string_eq, Dict, lookup,
  insert, has, is_some, if◌then◌else◌,
}

pub record Plugin : Type 0 where
  pub name : String
  pub depends : List String
  pub soft_depends : List String
  pub origin : ℕ

pub record Registry : Type 0 where
  pub plugins : Dict String Plugin
  pub order : List String

abbrev pub new_registry : Registry
new_registry = record { plugins = []; order = [] }

pub data RegisterError : Type 0 where
  nil_plugin empty_name : RegisterError
  already_registered : String → RegisterError

register_named : Registry → Plugin → Registry × Option RegisterError
register_named r p =
    if p.name == ""
    then (r, some empty_name)
    else (if has p.name r.plugins then (r, some (already_registered p.name)) else (
      record r { plugins = insert p.name p r.plugins; order = r.order ++ (p.name ∷ []) },
      none,
    ))

-- A nil plugin is `none`.
unfoldable pub register : Registry → Option Plugin → Registry × Option RegisterError
unfolding register_named
register r none = (r, some nil_plugin)
register r (some p) = register_named r p

-- `MustRegister`: the flag says that it panics.
unfoldable pub must_register : Registry → Option Plugin → Registry × Bool
must_register r p = let (r', err) = register r p in (r', is_some err)

-- The value of `r.plugins[name]` for each name in turn; a nil entry, for a name that is not there,
-- is `none`.
abbrev pub plugins_in_order : List String → Dict String Plugin → List (Option Plugin)
plugins_in_order names m = map (λ name. lookup name m) names

unfoldable pub plugins : Registry → List (Option Plugin)
plugins r = plugins_in_order r.order r.plugins

abbrev pub get : Registry → String → Option Plugin
get r name = lookup name r.plugins

abbrev pub reset : Registry → Registry
reset r = record { plugins = []; order = [] }

-- The service locator, over any type of services.
module _ {A : Type 0} where
  abbrev pub set_service : Dict String A → String → A → Dict String A
  set_service services name svc = insert name svc services

  abbrev pub get_service : Dict String A → String → Option A
  get_service services name = lookup name services
