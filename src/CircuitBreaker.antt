-- ===== src/CircuitBreaker.antt =====
-- The circuit breaker: internal/middleware/circuitbreaker/circuitbreaker.go.
-- A mutex guards the state, and the wrapped call runs between the two critical sections, so a
-- call is two atomic operations, `begin` (section A) and `finish` (section B). Each takes the
-- reading of the clock. Times and durations are natural numbers of nanoseconds: the test
-- `now.Sub(openedAt) >= timeout` is `opened_at + timeout ≤ now`. The counters are unbounded.
mod Tests
pub mod Laws
pub mod Calls
pub mod Runs
use tanugate.Common.{
  ℕ, ◌+◌, String, Bool, true, false, ◌&&◌, Option, none, some, List, [], ◌∷◌, ◌++◌, leb,
  if◌then◌else◌,
}

pub data State : Type 0 where
  closed open_ half_open : State

pub record CircuitBreakerConfig : Type 0 where
  pub failure_threshold : ℕ
  pub success_threshold : ℕ
  pub timeout : ℕ

-- `observed` tells whether `onStateChange` is set.
pub record CircuitBreaker : Type 0 where
  pub state : State
  pub failure_count : ℕ
  pub success_count : ℕ
  pub half_open_probing : Bool
  pub failure_threshold : ℕ
  pub success_threshold : ℕ
  pub timeout : ℕ
  pub opened_at : ℕ
  pub route_name : String
  pub observed : Bool

-- The arguments of a call of `onStateChange`.
pub record Change : Type 0 where
  pub route : String
  pub from : State
  pub to : State

abbrev pub state_string : State → String
state_string closed = "closed"
state_string open_ = "open"
state_string half_open = "half_open"

unfoldable pub new : CircuitBreakerConfig → String → Bool → CircuitBreaker
new cfg route_name observed = record {
  state = closed;
  failure_count = 0;
  success_count = 0;
  half_open_probing = false;
  failure_threshold = cfg.failure_threshold;
  success_threshold = cfg.success_threshold;
  timeout = cfg.timeout;
  opened_at = 0;
  route_name = route_name;
  observed = observed;
}

abbrev pub state_eq : State → State → Bool
state_eq closed closed = true
state_eq open_ open_ = true
state_eq half_open half_open = true
state_eq _ _ = false

-- The new state, the previous `State`, and whether they differ.
unfoldable pub set_state : CircuitBreaker → State → ℕ → CircuitBreaker × State × Bool
set_state cb to now = (
  record cb {
    state = to;
    failure_count = 0;
    success_count = 0;
    half_open_probing = false;
    opened_at = if state_eq to open_ then now else cb.opened_at;
  },
  cb.state,
  if state_eq cb.state to then false else true,
)

-- The callback fires after the mutex is released.
unfoldable pub notify : CircuitBreaker → Bool → State → State → List Change
notify cb changed from to =
    if changed && cb.observed
    then record { route = cb.route_name; from = from; to = to } ∷ []
    else []

-- What section A decides: `ErrCircuitOpen`, or to run the call, as a probe or not.
pub data Admission : Type 0 where
  rejected : Admission
  admitted : Bool → List Change → Admission

-- In HalfOpen, only one probe request is allowed at a time.
unfoldable pub probe_gate : CircuitBreaker → List Change → CircuitBreaker × Admission
probe_gate cb fired =
    if state_eq cb.state half_open
    then (if cb.half_open_probing
        then (cb, rejected)
        else (record cb { half_open_probing = true }, admitted true fired))
    else (cb, admitted false fired)

-- Section A of `Execute`.
unfoldable pub begin : CircuitBreaker → ℕ → CircuitBreaker × Admission
unfolding set_state notify probe_gate
begin cb now =
    if state_eq cb.state open_
    then (if leb (cb.opened_at + cb.timeout) now
        then (let (cb', from, changed) = set_state cb half_open now in
            probe_gate cb' (notify cb' changed from half_open))
        else (cb, rejected))
    else probe_gate cb []

-- `setState(to)` of section B with the callback that follows it.
unfoldable pub move : CircuitBreaker → State → ℕ → CircuitBreaker × List Change
unfolding set_state notify
move cb to now = let (cb', from, changed) = set_state cb to now in (cb', notify cb' changed from to)

unfoldable pub record_failure : CircuitBreaker → ℕ → CircuitBreaker × List Change
unfolding move
record_failure cb now =
    let counted = record cb { failure_count = cb.failure_count + 1; success_count = 0 } in
    if state_eq counted.state half_open
    then move counted open_ now
    else (if state_eq counted.state closed && leb counted.failure_threshold counted.failure_count
        then move counted open_ now
        else (counted, []))

unfoldable pub record_success : CircuitBreaker → ℕ → CircuitBreaker × List Change
unfolding move
record_success cb now =
    let counted = record cb { success_count = cb.success_count + 1; failure_count = 0 } in
    if state_eq counted.state half_open && leb counted.success_threshold counted.success_count
    then move counted closed now
    else (counted, [])

-- Section B of `Execute`: `is_probe` was decided by section A, `failed` is `err != nil`.
unfoldable pub finish : CircuitBreaker → Bool → Bool → ℕ → CircuitBreaker × List Change
unfolding record_failure record_success
finish cb is_probe failed now =
    let cb' = record cb { half_open_probing = if is_probe then false else cb.half_open_probing } in
    if failed then record_failure cb' now else record_success cb' now

pub data ExecResult {ℓ} (E : Type ℓ) : Type ℓ where
  err_circuit_open : ExecResult E
  returned : Option E → ExecResult E

abbrev pub is_failure {ℓ} : {E : Type ℓ} → Option E → Bool
is_failure none = false
is_failure (some _) = true

-- What a call of `Execute` leaves: the breaker, the world that `fn` acts on, the result and the
-- callbacks in order.
pub record Outcome (W E : Type 0) : Type 0 where
  pub breaker : CircuitBreaker
  pub world : W
  pub result : ExecResult E
  pub fired : List Change

-- `Execute` with no other call in between: `fn` acts on a world `w` and returns an error or nil;
-- the clock reads `now` in section A and `later` in section B.
module _ {W E : Type 0} (fn : W → W × Option E) where
  unfoldable pub execute : CircuitBreaker → ℕ → ℕ → W → Outcome W E
  execute cb now later w = elim (begin cb now).1 [
    | rejected ↦ record {
      breaker = (begin cb now).0;
      world = w;
      result = err_circuit_open;
      fired = [];
    }
    | admitted is_probe fired ↦
        let (w', err) = fn w in
        let (cb', fired') = finish (begin cb now).0 is_probe (is_failure err) later in
        record { breaker = cb'; world = w'; result = returned err; fired = fired ++ fired' }
  ]
