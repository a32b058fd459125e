-- ===== src/Discovery/Manager/Restart.antt =====
-- plugins/discovery/manager.go: a manager that is started again after a stop.
use golang_gin_rpc.Base.{
  ◌≡◌, refl, sym, ◌∙◌, Bool, true, false, not, Option, none, some, Option-cases, some-injective,
  none-absurd, List, [], ◌∷◌, arith, inl, inr, ◌⊎◌, string_eq, if_elim, subst,
}
use mathlib.Core.Bool.{false≢true}
use golang_gin_rpc.Discovery.{ServiceInstance}
use golang_gin_rpc.Discovery.Manager.{
  Backend, Manager, Err, when_registered, when_deregistered, register, deregister, run_checks,
  after_self, start, find_self, deregister_self, stop, ticked,
}

-- A call from outside or a tick of the health check.
pub data Event : Type 0 where
  starting : ServiceInstance → Event
  stopping : Event
  registering : ServiceInstance → Event
  deregistering : ServiceInstance → Event
  ticking : (ServiceInstance → Bool) → Event

module _ {ℓ} {D : Type ℓ} (backend : Backend D) where
  -- `none` once the program has panicked.
  unfoldable pub step : Event → Manager D → Option (Manager D)
  step (starting self) m = some (start backend self m).0
  step stopping m = stop backend m
  step (registering i) m = some (register backend i m).0
  step (deregistering i) m = some (deregister backend i m).0
  step (ticking answers) m = some (ticked backend answers m)

  abbrev pub then_run : Option (Manager D) → (Manager D → Option (Manager D)) → Option (Manager D)
  then_run none next = none
  then_run (some m) next = next m

  unfoldable pub run : List Event → Manager D → Option (Manager D)
  run [] m = some m
  run (e ∷ events) m = then_run (step e m) (λ x. run events x)

  -- The channel is closed and no check runs.
  abbrev pub IsSpent : Manager D → Type 0
  IsSpent m = (m.stop_closed ≡ true) × (m.checking ≡ false)

  -- A part of the manager that only Start and Stop change.
  abbrev Unmoved : Manager D → Manager D → Type 0
  Unmoved m m' =
      (m'.stop_closed ≡ m.stop_closed) × (m'.checking ≡ m.checking) × (m'.started ≡ m.started)

  when_registered-Unmoved :
      (i : ServiceInstance) (m : Manager D) (r : D × Bool) → Unmoved m (when_registered i m r).0
  when_registered-Unmoved i m (d, true) = (refl, refl, refl)
  when_registered-Unmoved i m (d, false) = (refl, refl, refl)

  when_deregistered-Unmoved :
      (i : ServiceInstance) (m : Manager D) (r : D × Bool) → Unmoved m (when_deregistered i m r).0
  when_deregistered-Unmoved i m (d, true) = (refl, refl, refl)
  when_deregistered-Unmoved i m (d, false) = (refl, refl, refl)

  register-Unmoved : (i : ServiceInstance) (m : Manager D) → Unmoved m (register backend i m).0
  unfolding register
  register-Unmoved i m =
      if_elim (λ (r : Manager D × Option Err). Unmoved m r.0) m.enabled
        (λ _. when_registered-Unmoved i m (backend.registers i m.registry))
        (λ _. (refl, refl, refl))

  deregister-Unmoved : (i : ServiceInstance) (m : Manager D) → Unmoved m (deregister backend i m).0
  unfolding deregister
  deregister-Unmoved i m =
      if_elim (λ (r : Manager D × Option Err). Unmoved m r.0) m.enabled
        (λ _. when_deregistered-Unmoved i m (backend.deregisters i m.registry))
        (λ _. (refl, refl, refl))

  run_checks-IsSpent : (m : Manager D) → m.stop_closed ≡ true → IsSpent (run_checks backend m)
  run_checks-IsSpent m h = (h, ground arith)

  after_self-IsSpent :
      (m : Manager D) (r : Manager D × Option Err)
      → IsSpent m
      → Unmoved m r.0
      → IsSpent (after_self backend r).0
  after_self-IsSpent m (m', none) h u = run_checks-IsSpent m' (u.0 ∙ h.0)
  after_self-IsSpent m (m', some e) h u = (u.0 ∙ h.0, u.1 ∙ h.1)

  start-IsSpent :
      (self : ServiceInstance) (m : Manager D) → IsSpent m → IsSpent (start backend self m).0
  unfolding start
  start-IsSpent self m h =
      let P = λ (r : Manager D × Option Err). IsSpent r.0 in
      if_elim P m.started (λ _. h)
        (λ _.
          if_elim P (not m.enabled) (λ _. h)
            (λ _.
              if_elim P m.auto_register
                (λ _. after_self-IsSpent m (register backend self m) h (register-Unmoved self m))
                (λ _. run_checks-IsSpent m h.0)))

  deregister_self-IsSpent : (m : Manager D) → IsSpent m → IsSpent (deregister_self backend m)
  unfolding deregister_self
  deregister_self-IsSpent m h = found (find_self backend m.service_name m.instances)
    where
      found :
          (o : Option ServiceInstance)
          → IsSpent (elim o [ none ↦ m | some i ↦ (deregister backend i m).0 ])
      found none = h
      found (some i) = let u = deregister-Unmoved i m in (u.0 ∙ h.0, u.1 ∙ h.1)

  -- A Stop that does not panic, of a manager that is started or spent.
  stop-IsSpent :
      (m m' : Manager D) → (m.started ≡ true) ⊎ IsSpent m → stop backend m ≡ some m' → IsSpent m'
  unfolding stop
  stop-IsSpent m m' h =
      let P = λ (o : Option (Manager D)). o ≡ some m' → IsSpent m' in
      let m₀ = record m { stop_closed = true; started = false; checking = false } in
      if_elim P (not m.started)
        (λ off e.
          subst IsSpent (some-injective e)
            (elim h [ inl on ↦ absurd (false≢true (rw on at off)) | inr spent ↦ spent ]))
        (λ _.
          if_elim P m.stop_closed (λ _ e. none-absurd e)
            (λ _ e. subst IsSpent (some-injective e) (
              if_elim IsSpent m.auto_register (λ _. deregister_self-IsSpent m₀ (refl, refl))
                (λ _. (refl, refl)))))

  ticked-IsSpent :
      (answers : ServiceInstance → Bool) (m : Manager D)
      → IsSpent m
      → IsSpent (ticked backend answers m)
  unfolding ticked
  ticked-IsSpent answers m h =
      if_elim IsSpent m.checking (λ on. absurd (false≢true (sym h.1 ∙ on))) (λ _. h)

  step-IsSpent : (e : Event) (m m' : Manager D) → IsSpent m → step e m ≡ some m' → IsSpent m'
  unfolding step
  step-IsSpent (starting self) m m' h e = subst IsSpent (some-injective e) (start-IsSpent self m h)
  step-IsSpent stopping m m' h e = stop-IsSpent m m' (inr h) e
  step-IsSpent (registering i) m m' h e =
      let u = register-Unmoved i m in subst IsSpent (some-injective e) (u.0 ∙ h.0, u.1 ∙ h.1)
  step-IsSpent (deregistering i) m m' h e =
      let u = deregister-Unmoved i m in subst IsSpent (some-injective e) (u.0 ∙ h.0, u.1 ∙ h.1)
  step-IsSpent (ticking answers) m m' h e =
      subst IsSpent (some-injective e) (ticked-IsSpent answers m h)

  run-IsSpent :
      (events : List Event) (m m' : Manager D) → IsSpent m → run events m ≡ some m' → IsSpent m'
  unfolding run
  run-IsSpent [] m m' h e = subst IsSpent (some-injective e) h
  run-IsSpent (x ∷ events) m m' h e = elim (Option-cases (step x m)) [
    | inl off ↦ none-absurd (rw off at e)
    | inr (n, on) ↦ run-IsSpent events n m' (step-IsSpent x m n h on) (rw on at e)
  ]

  stop_twice : (m : Manager D) → m.stop_closed ≡ true → m.started ≡ true → stop backend m ≡ none
  unfolding stop
  stop_twice m closed on = rw (on, closed)

  -- `close(stopCh)` runs at every Stop of a started manager, and Start makes no new channel: after
  -- one Stop, whatever Start, Stop, Register and Deregister calls and ticks follow, no health check
  -- runs any more, and a Stop of a manager that was started again is a panic. The program may have
  -- panicked before.
  pub restart_panics :
      (m m' n : Manager D) (events : List Event)
      → m.started ≡ true
      → stop backend m ≡ some m'
      → run events m' ≡ some n
      → (n.checking ≡ false) × (n.started ≡ true → stop backend n ≡ none)
  restart_panics m m' n events on stopped ran =
      let h : IsSpent n = run-IsSpent events m' n (stop-IsSpent m m' (inl on) stopped) ran in
      (h.1, λ again. stop_twice n h.0 again)
