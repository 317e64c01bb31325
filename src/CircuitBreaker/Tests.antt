-- ===== src/CircuitBreaker/Tests.antt =====
-- The breaker on concrete histories, and the theorems at them.
use tanugate.Common.{
  Bool, ℕ, ◌+◌, ◌≤◌, ◌≡◌, refl, true, false, Option, some, List, [], ◌∷◌, ◌++◌, arith,
}
use tanugate.CircuitBreaker.{
  Change, admitted, closed, open_, half_open, CircuitBreakerConfig, CircuitBreaker, new, begin,
  finish, execute,
}
use tanugate.CircuitBreaker.Calls.{
  Calls, Event, arrive, done, panic, admit, step, run, start, serial, IsSound, run-IsSound,
  run_available, run_single_probe,
}
use tanugate.CircuitBreaker.Runs.{panic_locks_out, straggler_admits_probe, run_trips, run_recovers}

breaker : Unit {0}
unfolding run step begin finish admit new execute
breaker = tt

abbrev settings : CircuitBreakerConfig
settings = record { failure_threshold = 2; success_threshold = 2; timeout = 10 }

abbrev at_start : Calls
at_start = start settings "orders" true

abbrev tripped : List Event
tripped = serial false true ((0, 1) ∷ (2, 3) ∷ [])

abbrev probing : List Event
probing =
    arrive 0
    ∷ (arrive 0 ∷ (arrive 1 ∷ (done false true 2 ∷ (done false true 3 ∷ (arrive 13 ∷ [])))))

abbrev lone_probe : List Event
lone_probe = arrive 0 ∷ (arrive 1 ∷ (done false true 2 ∷ (done false true 3 ∷ (arrive 13 ∷ []))))

abbrev open_breaker : CircuitBreaker
open_breaker = record {
  state = open_;
  failure_count = 0;
  success_count = 0;
  half_open_probing = false;
  failure_threshold = 2;
  success_threshold = 2;
  timeout = 10;
  opened_at = 3;
  route_name = "orders";
  observed = true;
}

abbrev half_open_breaker : CircuitBreaker
half_open_breaker = record open_breaker { state = half_open; half_open_probing = true }

trips : (run at_start tripped).breaker ≡ open_breaker
unfolding breaker
trips = refl

probes :
    run at_start probing ≡ record { breaker = half_open_breaker; plain = 1; probes = 1; lost = 0 }
unfolding breaker
probes = refl

-- A counter as the world: each run of the call adds one and fails.
abbrev failing : ℕ → ℕ × Option ℕ
failing w = (w + 1, some 502)

run-IsSound_example : IsSound (run at_start probing)
run-IsSound_example = run-IsSound settings "orders" true probing

run_available_example :
    (is_probe : Bool) × (fired : List Change) × ((begin (run at_start tripped).breaker 13).1
      ≡ admitted is_probe fired)
unfolding breaker
run_available_example = run_available settings "orders" true tripped 13 refl refl (omega arith)

run_single_probe_example : (run at_start (tripped ++ arrive 13 ∷ [])).probes ≤ 1
unfolding breaker
run_single_probe_example =
    run_single_probe settings "orders" true (tripped ++ arrive 13 ∷ []) (ground arith)

panic_locks_out_example :
    let after =
      run (run at_start lone_probe) (panic true ∷ done false true 14 ∷ arrive 1000000 ∷ []) in
    (after.breaker ≡ (run at_start lone_probe).breaker) × (after.plain ≡ 0) × (after.probes ≡ 0)
unfolding breaker
panic_locks_out_example =
    panic_locks_out (run at_start lone_probe) (done false true 14 ∷ (arrive 1000000 ∷ [])) refl refl
      refl refl

straggler_admits_probe_example :
    let s = run at_start probing in
    let next = run s (done false true 14 ∷ (arrive 24 ∷ [])) in
    ((step s (done false true 14)).breaker.state ≡ open_)
    × ((step s (done false true 14)).breaker.opened_at ≡ 14)
    × (next.breaker.state ≡ half_open)
    × (next.probes ≡ 2)
unfolding breaker
straggler_admits_probe_example =
    straggler_admits_probe (run at_start probing) 14 24 refl (omega arith) (omega arith)

run_trips_example :
    let before = run at_start (serial false true ((0, 1) ∷ [])) in
    let after = run before (serial false true ((2, 3) ∷ [])) in
    (before.breaker.state ≡ closed) × (after.breaker.state ≡ open_) × (after.breaker.opened_at ≡ 3)
unfolding breaker
run_trips_example = run_trips at_start ((0, 1) ∷ []) 2 3 refl refl

abbrev recovering : Calls
recovering = record {
  breaker = record open_breaker { state = half_open };
  plain = 0;
  probes = 0;
  lost = 0;
}

run_recovers_example :
    let before = run recovering (serial true false ((13, 14) ∷ [])) in
    (before.breaker.state ≡ half_open)
    × ((run before (serial true false ((15, 16) ∷ []))).breaker.state ≡ closed)
run_recovers_example = run_recovers recovering ((13, 14) ∷ []) 15 16 refl refl refl
