-- ===== src/Discovery/Manager.antt =====
-- plugins/discovery/manager.go: the manager of the instances that this process registers, its start
-- and stop, and its health check. The registry behind it is a state of any type with two calls
-- (`Backend`), such as Discovery/Static.antt; each says whether it succeeded. Which addresses answer,
-- and the instance that stands for the process, are arguments. The calls run one at a time, so that
-- the instance that the health check holds is still the one in the map.
pub mod Restart
pub mod Health
use golang_gin_rpc.Base.{
  ◌≡◌, refl, sym, ◌∙◌, Bool, true, false, Bool-cases, ◌&&◌, not, Option, none, some, Option-cases,
  some-injective, none-absurd, List, [], ◌∷◌, arith, inl, inr, String, string_eq, ◌==◌, ==_iff,
  ==_self, if◌then◌else◌, Dict, lookup, insert, erase, has, map, lookup-insert, lookup-erase,
  is_some, ℕ, zero, suc,
}
use golang_gin_rpc.Discovery.{ServiceInstance}

pub record Backend {ℓ} (D : Type ℓ) : Type ℓ where
  pub registers : ServiceInstance → D → D × Bool
  pub deregisters : ServiceInstance → D → D × Bool

pub record Manager {ℓ} (D : Type ℓ) : Type ℓ where
  pub enabled : Bool
  pub auto_register : Bool
  pub has_interval : Bool
  pub service_name : String
  pub instances : Dict String ServiceInstance
  pub unhealthy : Dict String Bool
  pub started : Bool
  pub stop_closed : Bool
  pub checking : Bool
  pub registry : D

pub data Err : Type 0 where
  already_started : Err
  disabled : Err
  not_registered : Err
  not_deregistered : Err
  self_failed : Err → Err

module _ {ℓ} {D : Type ℓ} where
  unfoldable pub new_manager : Bool → Bool → Bool → String → D → Manager D
  new_manager enabled auto_register has_interval service_name registry = record {
    enabled = enabled;
    auto_register = auto_register;
    has_interval = has_interval;
    service_name = service_name;
    instances = [];
    unhealthy = [];
    started = false;
    stop_closed = false;
    checking = false;
    registry = registry;
  }

  -- The registry has taken the instance, or not.
  abbrev pub when_registered : ServiceInstance → Manager D → D × Bool → Manager D × Option Err
  when_registered i m (d, true) = (
    record m {
      registry = d;
      instances = insert i.id i m.instances;
      unhealthy = erase i.id m.unhealthy;
    },
    none,
  )
  when_registered i m (d, false) = (record m { registry = d }, some not_registered)

  abbrev pub when_deregistered : ServiceInstance → Manager D → D × Bool → Manager D × Option Err
  when_deregistered i m (d, true) = (
    record m {
      registry = d;
      instances = erase i.id m.instances;
      unhealthy = erase i.id m.unhealthy;
    },
    none,
  )
  when_deregistered i m (d, false) = (record m { registry = d }, some not_deregistered)

module _ {ℓ} {D : Type ℓ} (backend : Backend D) where
  unfoldable pub register : ServiceInstance → Manager D → Manager D × Option Err
  register i m =
      if m.enabled then when_registered i m (backend.registers i m.registry) else (m, some disabled)

  unfoldable pub deregister : ServiceInstance → Manager D → Manager D × Option Err
  deregister i m =
      if m.enabled
      then when_deregistered i m (backend.deregisters i m.registry)
      else (m, some disabled)

  -- The rest of `Start`: a health check whose channel is closed returns at once.
  abbrev pub run_checks : Manager D → Manager D
  run_checks m = record m { checking = m.has_interval && not m.stop_closed; started = true }

  abbrev pub after_self : Manager D × Option Err → Manager D × Option Err
  after_self (m, none) = (run_checks m, none)
  after_self (m, some e) = (m, some (self_failed e))

  -- `Start`, with the instance that `registerSelf` makes.
  unfoldable pub start : ServiceInstance → Manager D → Manager D × Option Err
  start self m =
      if m.started
      then (m, some already_started)
      else if not m.enabled
      then (record m { started = true }, none)
      else if m.auto_register
      then after_self (register self m)
      else (run_checks m, none)

  -- The search of `deregisterSelf`.
  abbrev pub find_self : String → Dict String ServiceInstance → Option ServiceInstance
  find_self name [] = none
  find_self name ((id, i) ∷ instances) = if i.name == name then some i else find_self name instances

  unfoldable pub deregister_self : Manager D → Manager D
  deregister_self m = elim (find_self m.service_name m.instances) [
    | none ↦ m
    | some i ↦ (deregister i m).0
  ]

  -- `Stop`; `none` is the panic of a channel that is closed twice.
  unfoldable pub stop : Manager D → Option (Manager D)
  stop m =
      if not m.started
      then some m
      else if m.stop_closed
      then none
      else let m' = record m { stop_closed = true; started = false; checking = false } in
        some (if m.auto_register then deregister_self m' else m')

  abbrev pub is_unhealthy : ServiceInstance → Manager D → Bool
  is_unhealthy i m = elim (lookup i.id m.unhealthy) [ none ↦ false | some b ↦ b ]

  abbrev pub when_recovered : ServiceInstance → Manager D → D × Bool → Manager D
  when_recovered i m (d, true) = record m { registry = d; unhealthy = erase i.id m.unhealthy }
  when_recovered i m (d, false) = record m { registry = d }

  -- The turn of `performHealthCheck` for one instance.
  unfoldable pub check : (ServiceInstance → Bool) → ServiceInstance → Manager D → Manager D
  check answers i m =
      if answers i
      then if is_unhealthy i m then when_recovered i m (backend.registers i m.registry) else m
      else if is_unhealthy i m
      then m
      else record m {
        unhealthy = insert i.id true m.unhealthy;
        registry = (backend.deregisters i m.registry).0;
      }

  unfoldable pub check_each :
      (ServiceInstance → Bool) → List ServiceInstance → Manager D → Manager D
  check_each answers [] m = m
  check_each answers (i ∷ instances) m = check_each answers instances (check answers i m)

  unfoldable pub perform_health_check : (ServiceInstance → Bool) → Manager D → Manager D
  perform_health_check answers m = check_each answers (map (λ entry. entry.1) m.instances) m

  -- A call of the manager, or a tick of its health check.
  unfoldable pub ticked : (ServiceInstance → Bool) → Manager D → Manager D
  ticked answers m = if m.checking then perform_health_check answers m else m
