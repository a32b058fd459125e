-- ===== src/Breaker/Execute.antt =====
-- `Execute` and `ExecuteContext`, the group of breakers by name, its health check and the HTTP
-- middleware. While the caller's function runs, other requests may use the breaker: `during` is
-- what they make of it.
use golang_gin_rpc.Base.{
  ℕ, Bool, true, false, Option, none, some, List, [], ◌∷◌, String, map, Dict, keys, lookup, insert,
  erase, string_eq, if◌then◌else◌,
}
use golang_gin_rpc.Breaker.{
  State, state_open, Err, circuit_breaker_open, too_many_requests, other, Config, Breaker,
  same_state, new, before_request, after_request,
}

-- How the caller's function ends.
pub data Outcome (A : Type 0) : Type 0 where
  returned : Option A → Option Err → Outcome A
  panicked : Outcome A

-- How `Execute` ends.
pub data Reply (A : Type 0) : Type 0 where
  replied : Option A → Option Err → Reply A
  panics : Reply A

-- The clock when the request begins, when it ends, and in the deferred call.
pub record Clock : Type 0 where
  pub starts : ℕ
  pub ends : ℕ
  pub recovers : ℕ

module _ {A : Type 0} where
  -- `cb.fallback(err)` if it is set.
  abbrev pub fall_back : Option (Err → Option Err) → Err → Reply A
  fall_back none err = replied none (some err)
  fall_back (some f) err = replied none (f err)

  abbrev result_of : Option (Err → Option Err) → Option A → Option Err → Reply A
  result_of fallback result none = replied result none
  result_of none result (some err) = replied result (some err)
  result_of (some f) result (some err) = replied none (f err)

  -- The deferred function: it reports a failure, and the panic goes on.
  abbrev recovered : Breaker → ℕ → ℕ → Breaker × Reply A
  recovered b generation now = ((after_request b generation false now).0, panics)

  -- The code behind `fn()`: a nil `isSuccessful` or `readyToTrip` panics in its turn.
  finish : Breaker → ℕ → Clock → Outcome A → Breaker × Reply A
  finish b generation clock panicked = recovered b generation clock.recovers
  finish b generation clock (returned result err) = elim b.is_successful [
    | none ↦ recovered b generation clock.recovers
    | some success ↦
        let (b', nil_call) = after_request b generation (success err) clock.ends in
        if nil_call
        then recovered b' generation clock.recovers
        else (b', result_of b.fallback result err)
  ]

  abbrev run_admitted :
      Breaker × ℕ × Option Err → Clock → (Breaker → Breaker) → Outcome A → Breaker × Reply A
  run_admitted (b, generation, some err) clock during fn = (b, fall_back b.fallback err)
  run_admitted (b, generation, none) clock during fn = finish (during b) generation clock fn

  unfoldable pub execute : Breaker → Clock → (Breaker → Breaker) → Outcome A → Breaker × Reply A
  unfolding finish
  execute b clock during fn = run_admitted (before_request b clock.starts) clock during fn

-- `CircuitBreakerGroup`.
abbrev pub Group : Type 0
Group = Dict String Breaker

unfoldable pub add : Group → String → Config → ℕ → Group
add g name config now = insert name (new config now) g

abbrev pub get : Group → String → Option Breaker
get g name = lookup name g

unfoldable pub remove : Group → String → Group
remove g name = erase name g

abbrev pub list : Group → List String
list g = keys g

abbrev pub states : Group → List (String × State)
states g = map (λ p. (p.0, p.1.state)) g

-- What a call does without a breaker of that name.
abbrev direct : {A : Type 0} → Outcome A → Reply A
direct (returned result err) = replied result err
direct panicked = panics

unfoldable pub group_execute :
    {A : Type 0} → Group → String → Clock → (Breaker → Breaker) → Outcome A → Group × Reply A
group_execute g name clock during fn = elim (get g name) [
  | none ↦ (g, direct fn)
  | some b ↦ let (b', reply) = execute b clock during fn in (insert name b' g, reply)
]

-- `CheckHealth`: the name of the first open breaker that `range` visits.
unfoldable pub check_health : List (String × State) → Option String
check_health [] = none
check_health ((name, state) ∷ rest) =
    if same_state state state_open then some name else check_health rest

-- `Middleware.Wrap`: the handler writes its own answer, which the breaker does not see.
pub data Answer : Type 0 where
  handled service_unavailable too_many internal_server_error crashed : Answer

abbrev pub answer_of : Reply (Unit {0}) → Answer
answer_of (replied _ none) = handled
answer_of (replied _ (some circuit_breaker_open)) = service_unavailable
answer_of (replied _ (some too_many_requests)) = too_many
answer_of (replied _ (some (other _))) = internal_server_error
answer_of panics = crashed

-- `fn` returns `nil, nil` whatever status the handler writes.
abbrev pub wrapped : Bool → Outcome (Unit {0})
wrapped true = panicked
wrapped false = returned none none

unfoldable pub wrap : Group → String → Clock → (Breaker → Breaker) → Bool → Group × Answer
wrap g name clock during handler_panics =
    let (g', reply) = group_execute g name clock during (wrapped handler_panics) in
    (g', answer_of reply)
