-- ===== src/Discovery/Manager/Health.antt =====
-- plugins/discovery/manager.go: what the health check does for an instance that does not answer.
use golang_gin_rpc.Base.{
  ℕ, zero, suc, ◌≡◌, refl, sym, subst, Bool, true, false, not, string_eq, ==_self, insert,
  lookup-insert_self, lookup-erase,
}
use golang_gin_rpc.Discovery.{ServiceInstance}
use golang_gin_rpc.Discovery.Manager.{Backend, Manager, is_unhealthy, when_recovered, check}

module _ {ℓ} {D : Type ℓ} (backend : Backend D) where
  -- The turn of one instance, a number of times.
  unfoldable pub checks : ℕ → (ServiceInstance → Bool) → ServiceInstance → Manager D → Manager D
  checks zero answers i m = m
  checks (suc n) answers i m = checks n answers i (check backend answers i m)

  -- The manager once the instance is marked, with what the registry has made of it.
  abbrev pub marked : ServiceInstance → Manager D → Manager D
  marked i m = record m {
    unhealthy = insert i.id true m.unhealthy;
    registry = (backend.deregisters i m.registry).0;
  }

  checks-marked :
      (n : ℕ) (answers : ServiceInstance → Bool) (i : ServiceInstance) (m : Manager D)
      → answers i ≡ false
      → is_unhealthy backend i m ≡ true
      → checks n answers i m ≡ m
  unfolding checks check
  checks-marked zero answers i m down bad = refl
  checks-marked (suc n) answers i m down bad =
      rw (down, bad, check) (checks-marked n answers i m down bad)

  -- The health check asks the registry once to take out an instance that does not answer, and not
  -- again while it does not answer, whether the registry has done so or has failed: any number of
  -- checks leave the manager and the registry as the first one did.
  pub checks_once :
      (n : ℕ) (answers : ServiceInstance → Bool) (i : ServiceInstance) (m : Manager D)
      → answers i ≡ false
      → is_unhealthy backend i m ≡ false
      → checks (suc n) answers i m ≡ marked i m
  unfolding checks check
  checks_once n answers i m down well =
      rw (down, well, check)
        (checks-marked n answers i (marked i m) down
          (rw (lookup-insert_self i.id true m.unhealthy, is_unhealthy)))

  check-up :
      (answers : ServiceInstance → Bool) (i : ServiceInstance) (m : Manager D)
      → answers i ≡ true
      → is_unhealthy backend i m ≡ true
      → check backend answers i m ≡ when_recovered backend i m (backend.registers i m.registry)
  unfolding check
  check-up answers i m up bad = rw (up, bad)

  recovered :
      (i : ServiceInstance) (m : Manager D) (r : D × Bool)
      → is_unhealthy backend i m ≡ true
      → ((when_recovered backend i m r).registry ≡ r.0)
        × (is_unhealthy backend i (when_recovered backend i m r) ≡ not r.1)
  recovered i m (d, true) bad =
      (refl, rw (lookup-erase i.id i.id m.unhealthy, ==_self i.id, is_unhealthy))
  recovered i m (d, false) bad = (refl, bad)

  -- An instance that answers again is registered again, and is marked no longer if the registry has
  -- taken it; else every later check tries anew.
  pub check_recovers :
      (answers : ServiceInstance → Bool) (i : ServiceInstance) (m : Manager D)
      → answers i ≡ true
      → is_unhealthy backend i m ≡ true
      → ((check backend answers i m).registry ≡ (backend.registers i m.registry).0)
        × (is_unhealthy backend i (check backend answers i m)
            ≡ not (backend.registers i m.registry).1)
  check_recovers answers i m up bad =
      subst
        (λ (x : Manager D).
          (x.registry ≡ (backend.registers i m.registry).0)
          × (is_unhealthy backend i x ≡ not (backend.registers i m.registry).1))
        (sym (check-up answers i m up bad)) (recovered i m (backend.registers i m.registry) bad)
