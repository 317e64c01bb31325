-- ===== src/CircuitBreaker/Laws.antt =====
-- One call of the circuit breaker: the invariant of its fields, the transitions that it makes, and
-- the callbacks that report them.
use tanugate.Common.{
  ◌∙◌, ℕ, ◌+◌, ◌≤◌, ◌<◌, ◌≡◌, refl, inl, inr, if◌then◌else◌, ◌⊎◌, ◌≢◌, String, Bool, true, false,
  Option, List, [], ◌∷◌, ◌++◌, arith,
}
use tanugate.CircuitBreaker.{
  State, closed, open_, half_open, CircuitBreakerConfig, CircuitBreaker, Change, new, Admission,
  rejected, admitted, begin, finish, err_circuit_open, returned, execute, is_failure,
}

-- What holds of the fields whenever the mutex is free.
pub record IsValid (cb : CircuitBreaker) : Type 0 where
  pub probing_half_open : cb.half_open_probing ≡ true → cb.state ≡ half_open
  pub closed_below :
      cb.state ≡ closed → 0 < cb.failure_threshold → cb.failure_count < cb.failure_threshold
  pub half_open_below :
      cb.state ≡ half_open → 0 < cb.success_threshold → cb.success_count < cb.success_threshold

pub new-IsValid :
    (cfg : CircuitBreakerConfig) (route : String) (observed : Bool)
    → IsValid (new cfg route observed)
unfolding new
new-IsValid cfg route observed = ground arith

pub begin-IsValid : (cb : CircuitBreaker) (now : ℕ) → IsValid cb → IsValid (begin cb now).0
unfolding begin
begin-IsValid cb now v = ground arith

pub finish-IsValid :
    (cb : CircuitBreaker) (is_probe failed : Bool) (now : ℕ)
    → IsValid cb
    → IsValid (finish cb is_probe failed now).0
unfolding finish
finish-IsValid cb is_probe failed now v = ground arith

-- The settings never change.
pub finish_settings :
    (cb : CircuitBreaker) (is_probe failed : Bool) (now : ℕ)
    → ((finish cb is_probe failed now).0.failure_threshold ≡ cb.failure_threshold)
      × ((finish cb is_probe failed now).0.success_threshold ≡ cb.success_threshold)
      × ((finish cb is_probe failed now).0.timeout ≡ cb.timeout)
      × ((finish cb is_probe failed now).0.observed ≡ cb.observed)
unfolding finish
finish_settings cb is_probe failed now = ground arith

pub begin_settings :
    (cb : CircuitBreaker) (now : ℕ)
    → ((begin cb now).0.failure_threshold ≡ cb.failure_threshold)
      × ((begin cb now).0.success_threshold ≡ cb.success_threshold)
      × ((begin cb now).0.timeout ≡ cb.timeout)
      × ((begin cb now).0.observed ≡ cb.observed)
unfolding begin
begin_settings cb now = ground arith

-- When a call may run: the breaker is closed, or it is open and its timeout is over, or it is half
-- open and no probe is marked.
abbrev pub MayRun : CircuitBreaker → ℕ → Type 0
MayRun cb now =
    (cb.state ≡ closed)
    ⊎ ((cb.state ≡ open_) × (cb.opened_at + cb.timeout ≤ now))
    ⊎ ((cb.state ≡ half_open) × (cb.half_open_probing ≡ false))

-- A rejected call changes no field.
pub begin-rejected :
    (cb : CircuitBreaker) (now : ℕ) → (begin cb now).1 ≡ rejected → (begin cb now).0 ≡ cb
unfolding begin
begin-rejected cb now h = ground arith

pub begin-admitted :
    (cb : CircuitBreaker) (now : ℕ)
    → MayRun cb now
    → (p : Bool) × (cs : List Change) × ((begin cb now).1 ≡ admitted p cs)
unfolding begin
begin-admitted cb now (inl e) = (false, [], ground arith)
begin-admitted cb now (inr (inl e)) = (
  true,
  (if cb.observed
      then record { route = cb.route_name; from = cb.state; to = half_open } ∷ []
      else []),
  ground arith,
)
begin-admitted cb now (inr (inr e)) = (true, [], ground arith)

pub begin_blocked : (cb : CircuitBreaker) (now : ℕ) → ¬ MayRun cb now → (begin cb now).1 ≡ rejected
unfolding begin
begin_blocked cb now h = ground arith

-- The chain of state changes that a list of callbacks reports.
abbrev pub Reports : State → List Change → State → Type 0
Reports s [] t = s ≡ t
Reports s (c ∷ cs) t = (c.from ≡ s) × (c.from ≢ c.to) × Reports c.to cs t

-- A callback fires for a change of state, with the states before and after, and for nothing else.
pub finish-Reports :
    (cb : CircuitBreaker) (is_probe failed : Bool) (now : ℕ)
    → cb.observed ≡ true
    → Reports cb.state (finish cb is_probe failed now).1 (finish cb is_probe failed now).0.state
unfolding finish
finish-Reports cb is_probe failed now h = ground arith

pub begin-Reports :
    (cb : CircuitBreaker) (now : ℕ) {p : Bool} {cs : List Change}
    → cb.observed ≡ true
    → (begin cb now).1 ≡ admitted p cs
    → Reports cb.state cs (begin cb now).0.state
unfolding begin
begin-Reports cb now h e = ground arith

Reports-append :
    (s t u : State) (cs ds : List Change) → Reports s cs t → Reports t ds u → Reports s (cs ++ ds) u
Reports-append s t u [] ds h k = rw h k
Reports-append s t u (c ∷ cs) ds (a, b, h) k = (a, b, Reports-append c.to t u cs ds h k)

module _ {W E : Type 0} (fn : W → W × Option E) (cb : CircuitBreaker) (now later : ℕ) (w : W) where
  -- A call that may run makes `fn` act once, on the caller's world, and hands its error on.
  pub execute_runs :
      MayRun cb now
      → ((execute fn cb now later w).world ≡ (fn w).0)
        × ((execute fn cb now later w).result ≡ returned (fn w).1)
  unfolding execute
  execute_runs h = let (p, cs, e) = begin-admitted cb now h in (rw (e, execute), rw (e, execute))

  -- Any other call is refused: `fn` does not run, and neither the breaker nor the world changes.
  pub execute_refuses :
      ¬ MayRun cb now
      → execute fn cb now later w
        ≡ record { breaker = cb; world = w; result = err_circuit_open; fired = [] }
  unfolding execute
  execute_refuses h = let e = begin_blocked cb now h in rw (e, execute, begin-rejected cb now e)

  -- The callbacks of a call report its changes of state, in order and without a gap.
  pub execute-Reports :
      cb.observed ≡ true
      → Reports cb.state (execute fn cb now later w).fired (execute fn cb now later w).breaker.state
  unfolding execute
  execute-Reports h = go (begin cb now).1 refl
    where
      go :
          (a : Admission)
          → (begin cb now).1 ≡ a
          → Reports cb.state
              (execute fn cb now later w).fired
              (execute fn cb now later w).breaker.state
      go rejected e = rw (e, execute, begin-rejected cb now e) refl
      go (admitted p cs) e =
          rw (e, execute)
            (Reports-append _ _ _ cs _ (begin-Reports cb now h e) (
              finish-Reports (begin cb now).0 p (is_failure (fn w).1) later
                ((begin_settings cb now).3 ∙ h)))
