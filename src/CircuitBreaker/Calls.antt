-- ===== src/CircuitBreaker/Calls.antt =====
-- Calls of the circuit breaker that overlap in time. The mutex makes section A and section B
-- atomic, so a history is a list of events: a call arrives, a call that runs returns, or the
-- wrapped function panics, which unwinds `Execute` past section B.
use tanugate.Common.{
  ℕ, ◌+◌, ◌-◌, ◌≤◌, ◌<◌, ◌≡◌, refl, ◌≢◌, Bool, true, false, List, [], ◌∷◌, arith, ltb,
  if◌then◌else◌, String,
}
use tanugate.CircuitBreaker.{
  Change, half_open, CircuitBreakerConfig, CircuitBreaker, new, Admission, rejected, admitted,
  begin, finish,
}
use tanugate.CircuitBreaker.Laws.{
  MayRun, begin-admitted, IsValid, new-IsValid, begin-IsValid, finish-IsValid,
}

-- A breaker with the calls that run: those admitted in Closed, those admitted as a probe, and the
-- number of calls that panicked as a probe.
pub record Calls : Type 0 where
  pub breaker : CircuitBreaker
  pub plain : ℕ
  pub probes : ℕ
  pub lost : ℕ

-- Each event has the clock's reading; `done` tells whether the call is a probe and whether it
-- failed, `panic` whether it is a probe.
pub data Event : Type 0 where
  arrive : ℕ → Event
  done : Bool → Bool → ℕ → Event
  panic : Bool → Event

unfoldable pub admit : Calls → CircuitBreaker → Admission → Calls
admit s cb rejected = record s { breaker = cb }
admit s cb (admitted true _) = record s { breaker = cb; probes = s.probes + 1 }
admit s cb (admitted false _) = record s { breaker = cb; plain = s.plain + 1 }

-- An event of a call that does not run is no event.
unfoldable pub step : Calls → Event → Calls
unfolding admit
step s (arrive now) = admit s (begin s.breaker now).0 (begin s.breaker now).1
step s (done true failed now) =
    if ltb 0 s.probes
    then record s { breaker = (finish s.breaker true failed now).0; probes = s.probes - 1 }
    else s
step s (done false failed now) =
    if ltb 0 s.plain
    then record s { breaker = (finish s.breaker false failed now).0; plain = s.plain - 1 }
    else s
step s (panic true) =
    if ltb 0 s.probes then record s { probes = s.probes - 1; lost = s.lost + 1 } else s
step s (panic false) = if ltb 0 s.plain then record s { plain = s.plain - 1 } else s

unfoldable pub run : Calls → List Event → Calls
run s [] = s
run s (e ∷ es) = run (step s e) es

abbrev pub arrivals : List ℕ → List Event
arrivals [] = []
arrivals (t ∷ ts) = arrive t ∷ arrivals ts

-- Calls one after the other, each with the clock's reading at its start and at its end.
abbrev pub serial : Bool → Bool → List (ℕ × ℕ) → List Event
serial is_probe failed [] = []
serial is_probe failed ((t, u) ∷ calls) =
    arrive t ∷ (done is_probe failed u ∷ serial is_probe failed calls)

abbrev pub start : CircuitBreakerConfig → String → Bool → Calls
start cfg route observed = record {
  breaker = new cfg route observed;
  plain = 0;
  probes = 0;
  lost = 0;
}

-- A marked probe runs, or it panicked.
pub record IsSound (s : Calls) : Type 0 where
  pub valid : IsValid s.breaker
  pub accounted : s.breaker.half_open_probing ≡ true → 0 < s.probes + s.lost

begin_probing :
    (cb : CircuitBreaker) (now : ℕ) (s : Calls)
    → (cb.half_open_probing ≡ true → 0 < s.probes + s.lost)
    → (admit s (begin cb now).0 (begin cb now).1).breaker.half_open_probing ≡ true
    → 0
      < (admit s (begin cb now).0 (begin cb now).1).probes
        + (admit s (begin cb now).0 (begin cb now).1).lost
unfolding begin admit
begin_probing cb now s h k = ground arith

finish_plain_probing :
    (cb : CircuitBreaker) (failed : Bool) (now : ℕ)
    → (finish cb false failed now).0.half_open_probing ≡ true
    → cb.half_open_probing ≡ true
unfolding finish
finish_plain_probing cb failed now h = ground arith

finish_probe_probing :
    (cb : CircuitBreaker) (failed : Bool) (now : ℕ)
    → (finish cb true failed now).0.half_open_probing ≡ false
unfolding finish
finish_probe_probing cb failed now = ground arith

admit_breaker : (s : Calls) (cb : CircuitBreaker) (a : Admission) → (admit s cb a).breaker ≡ cb
unfolding admit
admit_breaker s cb rejected = refl
admit_breaker s cb (admitted true _) = refl
admit_breaker s cb (admitted false _) = refl

step-IsSound : (s : Calls) (e : Event) → IsSound s → IsSound (step s e)
unfolding step
step-IsSound s (arrive now) h = record {
  valid = rw (admit_breaker s _ _) (begin-IsValid s.breaker now h.valid);
  accounted = begin_probing s.breaker now s h.accounted;
}
step-IsSound s (done true failed now) h =
    ground
      (arith, finish-IsValid s.breaker true failed now, finish_probe_probing s.breaker failed now)
step-IsSound s (done false failed now) h =
    ground
      (arith, finish-IsValid s.breaker false failed now, finish_plain_probing s.breaker failed now)
step-IsSound s (panic true) h = ground arith
step-IsSound s (panic false) h = ground arith

run_from-IsSound : (s : Calls) (es : List Event) → IsSound s → IsSound (run s es)
unfolding run
run_from-IsSound s [] h = h
run_from-IsSound s (e ∷ es) h = run_from-IsSound (step s e) es (step-IsSound s e h)

new_probing :
    (cfg : CircuitBreakerConfig) (route : String) (observed : Bool)
    → (new cfg route observed).half_open_probing ≡ false
unfolding new
new_probing cfg route observed = refl

-- Whatever calls overlap, return or panic, the invariant of the breaker holds, and a probe that is
-- marked as in flight runs or has panicked.
pub run-IsSound :
    (cfg : CircuitBreakerConfig) (route : String) (observed : Bool) (es : List Event)
    → IsSound (run (start cfg route observed) es)
run-IsSound cfg route observed es = run_from-IsSound (start cfg route observed) es (record {
  valid = new-IsValid cfg route observed;
  accounted = ground (arith, new_probing cfg route observed);
})

MayRun-of_unmarked :
    (cb : CircuitBreaker) (now : ℕ)
    → cb.half_open_probing ≡ false
    → cb.opened_at + cb.timeout ≤ now
    → MayRun cb now
MayRun-of_unmarked cb now h t = ground arith

-- Once every probe has returned and none has panicked, and the timeout of the last opening is over,
-- the next call runs.
pub run_available :
    (cfg : CircuitBreakerConfig) (route : String) (observed : Bool) (es : List Event) (now : ℕ)
    → let s = run (start cfg route observed) es in
      s.probes ≡ 0
      → s.lost ≡ 0
      → s.breaker.opened_at + s.breaker.timeout ≤ now
      → (is_probe : Bool) × (fired : List Change) × ((begin s.breaker now).1
          ≡ admitted is_probe fired)
run_available cfg route observed es now p l t =
    begin-admitted (run (start cfg route observed) es).breaker now (
      MayRun-of_unmarked (run (start cfg route observed) es).breaker now
        (ground (arith, run-IsSound cfg route observed es)) t)

abbrev pub ends_plain : Event → Bool
ends_plain (done false _ _) = true
ends_plain _ = false

-- No call that was admitted in Closed returns in HalfOpen.
abbrev pub HasNoStraggler : Calls → List Event → Type 0
HasNoStraggler s [] = Unit
HasNoStraggler s (e ∷ es) =
    (ends_plain e ≡ true → s.breaker.state ≢ half_open) × HasNoStraggler (step s e) es

record IsSingle (s : Calls) : Type 0 where
  valid : IsValid s.breaker
  at_most_one : s.probes ≤ 1
  unmarked : s.breaker.half_open_probing ≡ false → s.probes ≡ 0

begin_single :
    (cb : CircuitBreaker) (now : ℕ) (s : Calls)
    → (cb.half_open_probing ≡ true → cb.state ≡ half_open)
    → (cb.half_open_probing ≡ false → s.probes ≡ 0)
    → s.probes ≤ 1
    → let t = admit s (begin cb now).0 (begin cb now).1 in
      (t.probes ≤ 1) × (t.breaker.half_open_probing ≡ false → t.probes ≡ 0)
unfolding begin admit
begin_single cb now s v h k = (ground arith, ground arith)

finish_plain_single :
    (cb : CircuitBreaker) (failed : Bool) (now : ℕ)
    → cb.state ≢ half_open
    → (cb.half_open_probing ≡ true → cb.state ≡ half_open)
    → cb.half_open_probing ≡ false
unfolding finish
finish_plain_single cb failed now h v = ground arith

step-IsSingle :
    (s : Calls) (e : Event)
    → (ends_plain e ≡ true → s.breaker.state ≢ half_open)
    → IsSingle s
    → IsSingle (step s e)
unfolding step
step-IsSingle s (arrive now) d h =
    let (one, unmarked) =
      begin_single s.breaker now s h.valid.probing_half_open h.unmarked h.at_most_one in
    record {
      valid = rw (admit_breaker s _ _) (begin-IsValid s.breaker now h.valid);
      at_most_one = one;
      unmarked = unmarked;
    }
step-IsSingle s (done true failed now) d h =
    ground (arith, finish-IsValid s.breaker true failed now)
step-IsSingle s (done false failed now) d h = ground (
  arith,
  finish-IsValid s.breaker false failed now,
  finish_plain_single s.breaker failed now (d refl) h.valid.probing_half_open,
)
step-IsSingle s (panic true) d h = ground arith
step-IsSingle s (panic false) d h = ground arith

run-IsSingle :
    (s : Calls) (es : List Event) → HasNoStraggler s es → IsSingle s → IsSingle (run s es)
unfolding run
run-IsSingle s [] d h = h
run-IsSingle s (e ∷ es) d h = run-IsSingle (step s e) es d.1 (step-IsSingle s e d.0 h)

-- At most one probe runs at a time, in every history in which no call that was admitted in Closed
-- returns in HalfOpen.
pub run_single_probe :
    (cfg : CircuitBreakerConfig) (route : String) (observed : Bool) (es : List Event)
    → HasNoStraggler (start cfg route observed) es
    → (run (start cfg route observed) es).probes ≤ 1
run_single_probe cfg route observed es d =
    let r = run-IsSingle (start cfg route observed) es d (record {
      valid = new-IsValid cfg route observed;
      at_most_one = omega arith;
      unmarked = λ _. refl;
    }) in
    r.at_most_one
