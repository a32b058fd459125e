-- ===== src/Breaker/System.antt =====
-- A breaker among the requests that it has admitted and that have not reported yet: `Execute` is
-- `beforeRequest`, the caller's function, then `afterRequest`, and calls of it may overlap.
use golang_gin_rpc.Base.{
  ℕ, suc, ◌-◌, ◌≤◌, ◌<◌, ◌≡◌, refl, Bool, false, Option, none, some, List, [], ◌∷◌, arith, eqb,
  if◌then◌else◌, max,
}
use golang_gin_rpc.Breaker.{Breaker, Err, before_request, after_request}

-- How many of the requests in flight carry a generation.
abbrev pub count : ℕ → List ℕ → ℕ
count g [] = 0
count g (h ∷ hs) = if eqb h g then suc (count g hs) else count g hs

abbrev pub remove : ℕ → List ℕ → List ℕ
remove g [] = []
remove g (h ∷ hs) = if eqb h g then hs else h ∷ remove g hs

pub record System : Type 0 where
  pub breaker : Breaker
  pub in_flight : List ℕ

-- A request begins, or one that was admitted under a generation ends. `again` is the time of the
-- deferred call, should the report panic.
pub data Event : Type 0 where
  begins : (now : ℕ) → Event
  ends : (generation : ℕ) → (success : Bool) → (now : ℕ) → (again : ℕ) → Event

abbrev pub joined : List ℕ → ℕ → Option Err → List ℕ
joined in_flight g none = g ∷ in_flight
joined in_flight g (some _) = in_flight

-- The report of a request. Where it panics, for want of a `readyToTrip`, the deferred function reports
-- the request once more, as a failure.
unfoldable pub report : Breaker → ℕ → Bool → ℕ → ℕ → Breaker
report b g success now again =
    let (b', panicked) = after_request b g success now in
    if panicked then (after_request b' g false again).0 else b'

unfoldable pub step : System → Event → System
step s (begins now) =
    let (b, g, err) = before_request s.breaker now in
    record { breaker = b; in_flight = joined s.in_flight g err }
step s (ends g success now again) =
    if eqb (count g s.in_flight) 0
    then s
    else record { breaker = report s.breaker g success now again; in_flight = remove g s.in_flight }

unfoldable pub run : System → List Event → System
run s [] = s
run s (e ∷ es) = run (step s e) es

-- The latest generation in flight.
abbrev pub newest : List ℕ → ℕ
newest [] = 0
newest (h ∷ hs) = max h (newest hs)

pub count_above : (g : ℕ) (hs : List ℕ) → newest hs < g → count g hs ≡ 0
count_above g [] h = refl
count_above g (x ∷ hs) h = ground (arith, count_above g hs)

pub newest-remove : (g : ℕ) (hs : List ℕ) → newest (remove g hs) ≤ newest hs
newest-remove g [] = omega arith
newest-remove g (x ∷ hs) = ground (arith, newest-remove g hs)

pub count-remove_self : (g : ℕ) (hs : List ℕ) → count g (remove g hs) ≡ count g hs - 1
count-remove_self g [] = refl
count-remove_self g (x ∷ hs) = ground (arith, count-remove_self g hs)

pub count-remove_ne : (g j : ℕ) (hs : List ℕ) → eqb g j ≡ false → count j (remove g hs) ≡ count j hs
count-remove_ne g j [] h = refl
count-remove_ne g j (x ∷ hs) h = ground (arith, count-remove_ne g j hs h)
