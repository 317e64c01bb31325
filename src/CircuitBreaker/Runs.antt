-- ===== src/CircuitBreaker/Runs.antt =====
-- Histories of the circuit breaker: what a run of failures, of successes and of rejected calls
-- does, and what calls that return late or panic do.
use tanugate.Common.{
  ℕ, ◌+◌, ◌≤◌, ◌<◌, ◌≡◌, refl, ap, ◌∙◌, Bool, true, false, List, [], ◌∷◌, arith, All, length,
}
use tanugate.CircuitBreaker.{closed, open_, half_open, CircuitBreaker, begin, finish}
use tanugate.CircuitBreaker.Laws.{MayRun, begin_blocked, begin-rejected}
use tanugate.CircuitBreaker.Calls.{
  Calls, Event, arrive, done, panic, arrivals, serial, admit, step, run,
}

-- A call that may not run leaves everything as it is.
step_blocked : (s : Calls) (now : ℕ) → ¬ MayRun s.breaker now → step s (arrive now) ≡ s
unfolding step
step_blocked s now h =
    let e = begin_blocked s.breaker now h in rw (e, begin-rejected s.breaker now e)

run_blocked :
    (s : Calls) (times : List ℕ)
    → All (λ t. ¬ MayRun s.breaker t) times
    → run s (arrivals times) ≡ s
unfolding run
run_blocked s [] h = refl
run_blocked s (t ∷ ts) (b, h) =
    ap (λ r. run r (arrivals ts)) (step_blocked s t b) ∙ run_blocked s ts h

blocked_before_timeout :
    (cb : CircuitBreaker) (times : List ℕ)
    → cb.state ≡ open_
    → All (λ t. t < cb.opened_at + cb.timeout) times
    → All (λ t. ¬ MayRun cb t) times
blocked_before_timeout cb [] o h = tt
blocked_before_timeout cb (t ∷ ts) o (b, h) = (ground arith, blocked_before_timeout cb ts o h)

-- While the timeout of an open breaker runs, every call is rejected and nothing changes.
pub run_open_rejects :
    (s : Calls) (times : List ℕ)
    → s.breaker.state ≡ open_
    → All (λ t. t < s.breaker.opened_at + s.breaker.timeout) times
    → run s (arrivals times) ≡ s
run_open_rejects s times o h = run_blocked s times (blocked_before_timeout s.breaker times o h)

-- After a panic in the only call that runs: the probe is lost and its mark stays.
record IsLockedOut (s : Calls) : Type 0 where
  state : s.breaker.state ≡ half_open
  marked : s.breaker.half_open_probing ≡ true
  no_plain : s.plain ≡ 0
  no_probe : s.probes ≡ 0

step_locked_out : (s : Calls) (e : Event) → IsLockedOut s → step s e ≡ s
unfolding step
step_locked_out s (arrive now) l = step_blocked s now (λ m. ground (arith, l.state, l.marked))
step_locked_out s (done true failed now) l = ground (arith, l.no_probe)
step_locked_out s (done false failed now) l = ground (arith, l.no_plain)
step_locked_out s (panic true) l = ground (arith, l.no_probe)
step_locked_out s (panic false) l = ground (arith, l.no_plain)

run_locked_out : (s : Calls) (es : List Event) → IsLockedOut s → run s es ≡ s
unfolding run
run_locked_out s [] l = refl
run_locked_out s (e ∷ es) l = ap (λ t. run t es) (step_locked_out s e l) ∙ run_locked_out s es l

panic-IsLockedOut :
    (s : Calls)
    → s.breaker.state ≡ half_open
    → s.breaker.half_open_probing ≡ true
    → s.plain ≡ 0
    → s.probes ≡ 1
    → IsLockedOut (step s (panic true)) × ((step s (panic true)).breaker ≡ s.breaker)
unfolding step
panic-IsLockedOut s o m p q = (
  record {
    state = ground arith;
    marked = ground arith;
    no_plain = ground arith;
    no_probe = ground arith;
  },
  ground arith,
)

-- If a marked probe is the only call that runs, and the wrapped function panics in it: whatever
-- happens after that, no call is admitted, however late it comes, and the breaker stays as it is.
pub panic_locks_out :
    (s : Calls) (events : List Event)
    → s.breaker.state ≡ half_open
    → s.breaker.half_open_probing ≡ true
    → s.plain ≡ 0
    → s.probes ≡ 1
    → let after = run s (panic true ∷ events) in
      (after.breaker ≡ s.breaker) × (after.plain ≡ 0) × (after.probes ≡ 0)
unfolding run
panic_locks_out s events o m p q =
    let (locked, same) = panic-IsLockedOut s o m p q in
    rw (run_locked_out (step s (panic true)) events locked) (same, locked.no_plain, locked.no_probe)

-- A call that was admitted in Closed and fails while the breaker is half-open reopens it at that
-- time, and a call that arrives next, after the timeout, is admitted as one more probe.
pub straggler_admits_probe :
    (s : Calls) (now later : ℕ)
    → s.breaker.state ≡ half_open
    → 0 < s.plain
    → now + s.breaker.timeout ≤ later
    → let failed = step s (done false true now) in
      let next = run s (done false true now ∷ arrive later ∷ []) in
      (failed.breaker.state ≡ open_)
      × (failed.breaker.opened_at ≡ now)
      × (next.breaker.state ≡ half_open)
      × (next.probes ≡ s.probes + 1)
unfolding run step begin finish admit
straggler_admits_probe s now later h p t = (ground arith, ground arith, ground arith, ground arith)

-- One failed call in a closed breaker, below the threshold and at it.
fail_below :
    (s : Calls) (t u : ℕ)
    → s.breaker.state ≡ closed
    → s.breaker.failure_count + 1 < s.breaker.failure_threshold
    → let b = (run s (serial false true ((t, u) ∷ []))).breaker in
      (b.state ≡ closed)
      × (b.failure_count ≡ s.breaker.failure_count + 1)
      × (b.failure_threshold ≡ s.breaker.failure_threshold)
unfolding run step begin finish admit
fail_below s t u h k = (ground arith, ground arith, ground arith)

fail_at :
    (s : Calls) (t u : ℕ)
    → s.breaker.state ≡ closed
    → s.breaker.failure_threshold ≤ s.breaker.failure_count + 1
    → let b = (run s (serial false true ((t, u) ∷ []))).breaker in
      (b.state ≡ open_) × (b.opened_at ≡ u)
unfolding run step begin finish admit
fail_at s t u h k = (ground arith, ground arith)

run-serial :
    (s : Calls) (p f : Bool) (t u : ℕ) (calls : List (ℕ × ℕ))
    → run s (serial p f ((t, u) ∷ calls))
      ≡ run (run s (serial p f ((t, u) ∷ []))) (serial p f calls)
unfolding run
run-serial s p f t u calls = refl

run-nil : (s : Calls) → run s [] ≡ s
unfolding run
run-nil s = refl

-- A closed breaker opens at the last of as many failures in a row as its threshold says, at the
-- time of that failure, and not before.
pub run_trips :
    (s : Calls) (calls : List (ℕ × ℕ)) (t u : ℕ)
    → s.breaker.state ≡ closed
    → s.breaker.failure_count + length calls + 1 ≡ s.breaker.failure_threshold
    → let before = run s (serial false true calls) in
      let after = run before (serial false true ((t, u) ∷ [])) in
      (before.breaker.state ≡ closed)
      × (after.breaker.state ≡ open_)
      × (after.breaker.opened_at ≡ u)
run_trips s [] t u h k =
    let (now_open, stamped) = fail_at s t u h (omega arith) in rw (run-nil s) (h, now_open, stamped)
run_trips s ((a, b) ∷ calls) t u h k =
    let (still, more, same) = fail_below s a b h (omega arith) in
    rw (run-serial s false true a b calls)
      (run_trips (run s (serial false true ((a, b) ∷ []))) calls t u still (omega arith))

-- One probe that succeeds, below the threshold and at it.
probe_below :
    (s : Calls) (t u : ℕ)
    → s.breaker.state ≡ half_open
    → s.breaker.half_open_probing ≡ false
    → s.breaker.success_count + 1 < s.breaker.success_threshold
    → let b = (run s (serial true false ((t, u) ∷ []))).breaker in
      (b.state ≡ half_open)
      × (b.half_open_probing ≡ false)
      × (b.success_count ≡ s.breaker.success_count + 1)
      × (b.success_threshold ≡ s.breaker.success_threshold)
unfolding run step begin finish admit
probe_below s t u h p k = (ground arith, ground arith, ground arith, ground arith)

probe_at :
    (s : Calls) (t u : ℕ)
    → s.breaker.state ≡ half_open
    → s.breaker.half_open_probing ≡ false
    → s.breaker.success_threshold ≤ s.breaker.success_count + 1
    → (run s (serial true false ((t, u) ∷ []))).breaker.state ≡ closed
unfolding run step begin finish admit
probe_at s t u h p k = ground arith

-- A half-open breaker closes at the last of as many probes in a row that succeed as its threshold
-- says, and not before.
pub run_recovers :
    (s : Calls) (calls : List (ℕ × ℕ)) (t u : ℕ)
    → s.breaker.state ≡ half_open
    → s.breaker.half_open_probing ≡ false
    → s.breaker.success_count + length calls + 1 ≡ s.breaker.success_threshold
    → let before = run s (serial true false calls) in
      (before.breaker.state ≡ half_open)
      × ((run before (serial true false ((t, u) ∷ []))).breaker.state ≡ closed)
run_recovers s [] t u h p k = rw (run-nil s) (h, probe_at s t u h p (omega arith))
run_recovers s ((a, b) ∷ calls) t u h p k =
    let (still, free, more, same) = probe_below s a b h p (omega arith) in
    rw (run-serial s true false a b calls)
      (run_recovers (run s (serial true false ((a, b) ∷ []))) calls t u still free (omega arith))
